-- ===== src/Head/Builder.antt =====
-- gold/head/builder.go: the builder, from the header to the split packets. A builder is the packet
-- and its buffer; `fresh` is the packet from the pool, and a copy of a builder is the same value.
pub mod Split
pub mod Key
use wire_gold.Common.{
  ltb, leb, ◌==◌, if◌then◌else◌, ltb→lt, lt→ltb, leb→le, le→ltb, lt→leb, le→leb, ==_iff, ==_refl,
  Bool-cases, Option-cases, length, get_elem?, get_or, set, take, drop, replicate, All,
  length-append, length-take, length-drop, length-replicate, take-append-drop, take-append,
  drop-append, take-all, drop-all, drop-nil, drop-drop, take-add, All-append, All-take, All-drop,
  get_or-append_last, take_front, bit_or_step, bit_or-zero, bit_and-zero, bit_or_fields,
  bit_and_mask, bit_xor_cancel, bit_xor_comm, bit_or_assoc, bit_xor-lt, IsByte, AreBytes, put_uint,
  get_uint, length-put_uint, put_uint-AreBytes, get_uint-put_uint, get_uint-lt, put_uint-get_uint,
  get_uint-append, get_uint-take, ℕ, zero, suc, ◌+◌, ◌-◌, ◌*◌, ◌/◌, ◌%◌, ◌^◌, ◌≤◌, ◌<◌, min,
  bit_and, bit_or, bit_xor, ◌≡◌, refl, sym, ap, ap₂, ◌∙◌, ◌≢◌, ◌↔◌, ◌⊎◌, inl, inr, Bool, true,
  false, not, ◌&&◌, ◌||◌, Option, none, some, List, [], ◌∷◌, ◌++◌, append_assoc, append-nil, arith,
  pow-suc, dec_lt, ℕ_discrete,
}
use wire_gold.Common.Int.{to_int64, to_uint64}
use wire_gold.Algo.Seal.{Aead, encode_aead}
use wire_gold.Algo.Hash.{blake2b_hash8}
use wire_gold.Head.Flags.{protobit, nofragbit, hasmorebit}
use wire_gold.Head.Packet.{Packet, PacketBuf}
use wire_gold.Head.Header.{pre_crc64}

-- copy(dst[:], src)
abbrev pub copy_over : List ℕ → List ℕ → List ℕ
copy_over dst src = take (length dst) src ++ drop (length src) dst

unfoldable pub new_packet_builder : PacketBuf → ℕ → PacketBuf
new_packet_builder fresh randn = record fresh { dat = record fresh.dat { randn = randn } }

unfoldable pub set_proto : ℕ → PacketBuf → PacketBuf
set_proto proto ub = record ub {
  dat = record ub.dat { proto = bit_or ub.dat.proto (bit_and proto protobit) };
}

unfoldable pub set_ttl : ℕ → PacketBuf → PacketBuf
set_ttl ttl ub = record ub { dat = record ub.dat { ttl = ttl } }

-- `ip` is ip.To4(), empty when that is nil.
unfoldable pub set_src : List ℕ → ℕ → PacketBuf → PacketBuf
set_src ip port ub = record ub {
  dat = record ub.dat { src = copy_over ub.dat.src ip; src_port = port };
}

unfoldable pub set_dst : List ℕ → ℕ → PacketBuf → PacketBuf
set_dst ip port ub = record ub {
  dat = record ub.dat { dst = copy_over ub.dat.dst ip; dst_port = port };
}

unfoldable pub with_data : Bool → (List ℕ → List ℕ) → List ℕ → PacketBuf → PacketBuf
with_data little md5 bytes ub = record {
  dat = record ub.dat { md5h8 = pre_crc64 little md5 ub.dat };
  buffer = ub.buffer ++ bytes;
}

unfoldable pub zstd : (List ℕ → List ℕ) → PacketBuf → PacketBuf
zstd encode ub = record ub { buffer = encode ub.buffer }

unfoldable pub hash : (List ℕ → List ℕ) → PacketBuf → PacketBuf
hash blake ub = record ub {
  dat = record ub.dat { hashrem = to_int64 (blake2b_hash8 blake ub.dat.md5h8 ub.buffer) };
}

unfoldable pub tea : ℕ → PacketBuf → PacketBuf
tea typ ub = record ub {
  dat = record ub.dat { idxdatsz = bit_or ub.dat.idxdatsz (typ * 2 ^ 27 % 2 ^ 32) };
}

unfoldable pub additional : ℕ → PacketBuf → PacketBuf
additional extra ub = record ub {
  dat = record ub.dat { idxdatsz = bit_or ub.dat.idxdatsz (bit_and extra 0x07ff * 2 ^ 16) };
}

-- The hash in front of the body, as Seal and Plain write it.
unfoldable pub hashed_body : PacketBuf → List ℕ
hashed_body ub = put_uint 8 (to_uint64 ub.dat.hashrem) ++ ub.buffer

unfoldable pub seal : Aead → List ℕ → ℕ → ℕ → PacketBuf → PacketBuf
unfolding tea additional hashed_body
seal aead nonce teatyp extra ub =
    let keyed = additional extra (tea teatyp ub) in
    record keyed { buffer = encode_aead aead nonce extra (hashed_body keyed) }

unfoldable pub plain : ℕ → ℕ → PacketBuf → PacketBuf
unfolding tea additional hashed_body
plain teatyp extra ub =
    let keyed = additional extra (tea teatyp ub) in record keyed { buffer = hashed_body keyed }

unfoldable pub trans : ℕ → ℕ → PacketBuf → PacketBuf
unfolding tea additional
trans teatyp extra ub = additional extra (tea teatyp ub)

unfoldable pub datasize : PacketBuf → PacketBuf
datasize ub = record ub {
  dat = record ub.dat { idxdatsz = bit_or ub.dat.idxdatsz (bit_and (length ub.buffer) 0xffff) };
}

unfoldable pub set_no_frag : Bool → Packet → Packet
set_no_frag on p = record p {
  proto = if on then bit_or p.proto nofragbit else bit_and p.proto (0xff - nofragbit);
}

unfoldable pub set_has_more : Bool → Packet → Packet
set_has_more on p = record p {
  proto = if on then bit_or p.proto hasmorebit else bit_and p.proto (0xff - hasmorebit);
}

unfoldable pub set_offset : ℕ → Packet → Packet
set_offset off p = record p { offset = off }
