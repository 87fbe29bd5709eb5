-- ===== src/Head/Unbox/Segment.antt =====
-- What WriteDataSegment does with a fragment that WriteHeaderTo's header precedes.
use wire_gold.Common.{
  ltb, ◌==◌, if◌then◌else◌, lt→ltb, le→ltb, le→leb, Bool-cases, length, drop, drop-append, get_uint,
  ℕ, ◌+◌, ◌-◌, ◌≤◌, ◌<◌, min, ◌≡◌, refl, ap, inl, inr, true, not, none, some, List, ◌++◌, arith,
}
use wire_gold.Common.Int.{pos, sub_int, is_positive}
use wire_gold.Head.Packet.{Packet, has_finished}
use wire_gold.Head.Unbox.{read_packet, set_zero_offset, copy_at, write_data_segment}
use wire_gold.Head.Unbox.Read.{
  IsPacket, IsDigest, crc_of, header_bytes, length-header_bytes, read_packet-header_bytes,
}

-- A packet under reassembly: the fields shared by its fragments, the offset and checksum that
-- it holds, and the bytes still to come.
abbrev pub waiting : Packet → ℕ → ℕ → ℕ → Packet
waiting base offset crc rem = record base { offset = offset; md5h8 = crc; hashrem = pos rem }

abbrev pub at_offset : Packet → ℕ → Packet
at_offset base offset = record base { offset = offset }

-- A fragment on the wire: its header and its bytes.
abbrev pub wire : (List ℕ → List ℕ) → Packet → ℕ → List ℕ → List ℕ
wire md5 base o bytes = header_bytes md5 (at_offset base o) ++ bytes

module _ (md5 : List ℕ → List ℕ) (base : Packet) (o : ℕ) (bytes : List ℕ) (digest : IsDigest md5)
    (v : IsPacket (at_offset base o)) where
  read_back :
      read_packet true base (wire md5 base o bytes)
      ≡ record base { offset = o; md5h8 = crc_of md5 (at_offset base o); hashrem = base.hashrem }
  read_back = read_packet-header_bytes md5 base (at_offset base o) bytes digest v true

  offset_at : get_uint 2 (drop 14 (wire md5 base o bytes)) ≡ o
  unfolding read_packet
  offset_at = ap (λ (q : Packet). q.offset) read_back

  payload_at : drop 32 (wire md5 base o bytes) ≡ bytes
  payload_at =
      drop-append 32 (header_bytes md5 (at_offset base o)) bytes
        (length-header_bytes md5 (at_offset base o) v)

  zero_offset_at :
      (offset crc : ℕ) (rem : ℕ)
      → set_zero_offset (waiting base offset crc rem) (wire md5 base o bytes)
        ≡ waiting base 0 (crc_of md5 (at_offset base o)) rem
  unfolding set_zero_offset read_packet
  zero_offset_at offset crc rem = λ i. record base {
    randn = (read_back i).randn;
    proto = (read_back i).proto;
    ttl = (read_back i).ttl;
    offset = 0;
    md5h8 = (read_back i).md5h8;
    hashrem = pos rem;
  }

  -- A fragment that lies within the buffer is copied to its offset and counted; the one at
  -- offset 0 also brings its checksum.
  pub write_fragment :
      (offset crc rem : ℕ) (buf : List ℕ)
      → 0 < length bytes
      → length bytes ≤ rem
      → o + length bytes ≤ length buf
      → write_data_segment (waiting base offset crc rem) (wire md5 base o bytes) buf
        ≡ some (
          not (ltb 0 (rem - length bytes)),
          waiting base
              (if o == 0 then 0 else offset)
              (if o == 0 then crc_of md5 (at_offset base o) else crc)
              (rem - length bytes),
          copy_at buf o bytes,
        )
  unfolding write_data_segment has_finished is_positive sub_int
  write_fragment offset crc rem buf some_bytes enough within = elim (Bool-cases (o == 0)) [
    | inl zero_offset ↦
        rw
          (
            offset_at,
            payload_at,
            zero_offset,
            zero_offset_at offset crc rem,
            lt→ltb 0 rem (omega arith),
            le→ltb (length buf) o (omega arith),
            copied,
            le→leb (length bytes) rem enough,
          )
          refl
    | inr later ↦
        rw
          (
            offset_at,
            payload_at,
            later,
            lt→ltb 0 rem (omega arith),
            le→ltb (length buf) o (omega arith),
            copied,
            le→leb (length bytes) rem enough,
          )
          refl
  ]
    where
      copied : min (length buf - o) (length bytes) ≡ length bytes
      copied = omega arith

  -- A fragment whose offset is past the end of the buffer stops the program.
  pub write_outside :
      (offset crc rem : ℕ) (buf : List ℕ)
      → 0 < rem
      → length buf < o
      → write_data_segment (waiting base offset crc rem) (wire md5 base o bytes) buf ≡ none
  unfolding write_data_segment has_finished is_positive
  write_outside offset crc rem buf waits outside =
      rw (offset_at, lt→ltb 0 rem waits, lt→ltb (length buf) o outside) refl
