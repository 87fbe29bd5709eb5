-- ===== src/Head/Header.antt =====
-- gold/head/box.go: PreCRC64, WriteHeaderTo, and the reading half of ParsePacketHeader in
-- gold/head/unbox.go. `md5` stands for crypto/md5.Sum.
pub mod Endian
use wire_gold.Common.{
  if◌then◌else◌, take, drop, put_uint, get_uint, ℕ, ◌*◌, ◌^◌, bit_and, bit_or, Bool, List, [], ◌∷◌,
  ◌++◌,
}
use wire_gold.Head.Flags.{protobit}
use wire_gold.Head.Packet.{Packet, packet_head_pre_crc_idx, clear_ttl}

-- algo.MD5Hash8
unfoldable pub md5_hash8 : (List ℕ → List ℕ) → List ℕ → ℕ
md5_hash8 md5 bytes = get_uint 8 (take 8 (md5 bytes))

-- The first 24 bytes of the packet in memory on a little-endian machine.
unfoldable pub memory_image : Packet → List ℕ
memory_image p =
    put_uint 4 p.idxdatsz
    ++ (put_uint 4 p.randn
        ++ (p.proto ∷ p.ttl ∷ []
            ++ (put_uint 2 p.src_port
                ++ (put_uint 2 p.dst_port ++ (put_uint 2 p.offset ++ (p.src ++ p.dst))))))

-- The same bytes as a big-endian machine writes them, TTL and protocol as one word.
unfoldable pub written_image : Packet → ℕ → List ℕ
written_image p word =
    put_uint 4 p.idxdatsz
    ++ (put_uint 4 p.randn
        ++ (put_uint 2 word
            ++ (put_uint 2 p.src_port
                ++ (put_uint 2 p.dst_port ++ (put_uint 2 p.offset ++ (p.src ++ p.dst))))))

unfoldable pub pre_crc64 : Bool → (List ℕ → List ℕ) → Packet → ℕ
pre_crc64 little md5 p =
    let image =
      if little
      then memory_image (record p { ttl = 0; proto = bit_and p.proto protobit })
      else written_image p (bit_and p.proto protobit) in
    md5_hash8 md5 (drop packet_head_pre_crc_idx image)

-- The packet with its checksum set, and the buffer with the header appended.
unfoldable pub write_header_to : Bool → (List ℕ → List ℕ) → Packet → List ℕ → Packet × List ℕ
write_header_to little md5 p buf =
    if little
    then (let bytes = buf ++ memory_image p in
        let crc = md5_hash8 md5 (clear_ttl bytes) in
        (record p { md5h8 = crc }, bytes ++ put_uint 8 crc))
    else (let bytes = written_image p (bit_or (p.ttl * 2 ^ 8) p.proto) in
        let crc = md5_hash8 md5 (clear_ttl bytes) in
        (record p { md5h8 = crc }, buf ++ (bytes ++ put_uint 8 crc)))
