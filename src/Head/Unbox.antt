-- ===== src/Head/Unbox.antt =====
-- gold/head/unbox.go: ParsePacketHeader and WriteDataSegment.
-- A packet from the pool is `fresh`; `md5` stands for crypto/md5.Sum.
pub mod Read
pub mod Accept
pub mod Ttl
pub mod Segment
pub mod Overflow
use wire_gold.Common.{
  ltb, leb, ◌==◌, if◌then◌else◌, length, get_or, take, drop, replicate, get_uint, ℕ, ◌+◌, ◌-◌, ◌/◌,
  ◌%◌, ◌^◌, min, Bool, true, not, ◌&&◌, ◌||◌, Option, none, some, List, ◌++◌,
}
use wire_gold.Common.Int.{pos, negsuc, sub_int}
use wire_gold.Head.Flags.{is_valid, has_more}
use wire_gold.Head.Packet.{
  Packet, PacketBuf, packet_head_len, packet_head_no_crc_len, size, has_finished, clear_ttl,
}
use wire_gold.Head.Header.{md5_hash8}

pub data Error : Type 0 where
  data_len_le_header invalid_proto invalid_offset bad_crc_checksum : Error

pub data Result {ℓ} (A : Type ℓ) : Type ℓ where
  ok : A → Result A
  err : Error → Result A

-- The byte of the protocol and the byte of the TTL: copied, or taken from one word.
abbrev pub proto_byte : Bool → List ℕ → ℕ
proto_byte little bytes = if little then get_or bytes 8 0 else get_uint 2 (drop 8 bytes) % 256

abbrev pub ttl_byte : Bool → List ℕ → ℕ
ttl_byte little bytes = if little then get_or bytes 9 0 else get_uint 2 (drop 8 bytes) / 2 ^ 8 % 256

-- The fields of the header, over a packet whose `hashrem` is not touched.
unfoldable pub read_packet : Bool → Packet → List ℕ → Packet
read_packet little fresh bytes = record {
  idxdatsz = get_uint 4 bytes;
  randn = get_uint 4 (drop 4 bytes);
  proto = proto_byte little bytes;
  ttl = ttl_byte little bytes;
  src_port = get_uint 2 (drop 10 bytes);
  dst_port = get_uint 2 (drop 12 bytes);
  offset = get_uint 2 (drop 14 bytes);
  src = take 4 (drop 16 bytes);
  dst = take 4 (drop 20 bytes);
  md5h8 = get_uint 8 (drop 24 bytes);
  hashrem = fresh.hashrem;
}

-- The offset test, in the uint16 arithmetic of the source.
unfoldable pub bad_offset : Packet → ℕ → Bool
bad_offset p len =
    let sz = size p in
    (not (has_more p.proto) && (not (p.offset == 0) || not (sz + packet_head_len == len)))
    || (has_more p.proto
        && ltb (sz % 2 ^ 16) ((p.offset + (len - packet_head_len) % 2 ^ 16) % 2 ^ 16))

-- The checksum of the header in `bytes`, its TTL cleared.
unfoldable pub header_crc : (List ℕ → List ℕ) → List ℕ → ℕ
header_crc md5 bytes = md5_hash8 md5 (clear_ttl (take packet_head_no_crc_len bytes))

-- The end of a successful parse: the whole body, or room for the body to come.
unfoldable pub open_body : PacketBuf → Packet → List ℕ → PacketBuf
open_body fresh p bytes =
    if size p + packet_head_len == length bytes
    then record {
      dat = record p { hashrem = negsuc 0 };
      buffer = fresh.buffer ++ drop packet_head_len bytes;
    }
    else record {
      dat = record p { hashrem = pos (size p) };
      buffer = fresh.buffer ++ replicate (size p) 0;
    }

unfoldable pub parse_packet_header :
    Bool → (List ℕ → List ℕ) → PacketBuf → List ℕ → Result PacketBuf
parse_packet_header little md5 fresh bytes =
    let p = read_packet little fresh.dat bytes in
    if leb (length bytes) packet_head_len
    then err data_len_le_header
    else if not (is_valid p.proto)
    then err invalid_proto
    else if bad_offset p (length bytes)
    then err invalid_offset
    else if not (header_crc md5 bytes == p.md5h8)
    then err bad_crc_checksum
    else ok (open_body fresh p bytes)

-- The fields that the segment at offset 0 brings.
unfoldable pub set_zero_offset : Packet → List ℕ → Packet
set_zero_offset p bytes = record p {
  randn = get_uint 4 (drop 4 bytes);
  proto = get_or bytes 8 0;
  ttl = get_or bytes 9 0;
  offset = 0;
  md5h8 = get_uint 8 (drop 24 bytes);
}

-- copy(buf[offset:], src), for an offset within the buffer.
unfoldable pub copy_at : List ℕ → ℕ → List ℕ → List ℕ
copy_at buf offset src =
    take offset buf ++ (take (length buf - offset) src ++ drop (offset + length src) buf)

-- `none` is the panic on buf[offset:] with an offset past the end. The result is whether the
-- packet is complete, and the packet and its buffer after the write.
unfoldable pub write_data_segment : Packet → List ℕ → List ℕ → Option (Bool × Packet × List ℕ)
write_data_segment p bytes buf =
    let offset = get_uint 2 (drop 14 bytes) in
    let q = if offset == 0 then set_zero_offset p bytes else p in
    let payload = drop packet_head_len bytes in
    let rem = sub_int q.hashrem (min (length buf - offset) (length payload)) in
    let r = record q { hashrem = rem } in
    if has_finished p
    then some (true, p, buf)
    else if ltb (length buf) offset
    then none
    else some (has_finished r, r, copy_at buf offset payload)
