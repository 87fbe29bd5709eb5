-- ===== src/Head/Unbox/Ttl.antt =====
-- Forwarding: DecTTL on a datagram, and what the next ParsePacketHeader makes of it.
use wire_gold.Common.{
  leb, ◌==◌, if◌then◌else◌, length, get_or, set, drop, replicate, AreBytes, get_uint, ℕ, ◌+◌, ◌*◌,
  ◌/◌, ◌%◌, ◌^◌, ◌≤◌, ◌<◌, ◌≡◌, refl, Bool, true, false, not, List, ◌∷◌, ◌++◌, arith,
}
use wire_gold.Common.Int.{pos, negsuc}
use wire_gold.Head.Flags.{is_valid}
use wire_gold.Head.Packet.{PacketBuf, size, clear_ttl, dec_ttl}
use wire_gold.Head.Unbox.{
  Result, ok, err, data_len_le_header, invalid_proto, invalid_offset, bad_crc_checksum, read_packet,
  bad_offset, header_crc, open_body, parse_packet_header,
}

-- A result with another TTL in its packet.
abbrev pub with_ttl : ℕ → Result PacketBuf → Result PacketBuf
with_ttl v (ok pb) = ok (record pb { dat = record pb.dat { ttl = v } })
with_ttl v (err e) = err e

retag : ℕ → PacketBuf → PacketBuf
retag v pb = record pb { dat = record pb.dat { ttl = v } }

-- The tests of the parser do not look at the TTL.
with_ttl-checks :
    (v : ℕ) (a b c d e : Bool) (x y : PacketBuf)
    → (if a
        then err data_len_le_header
        else if b
        then err invalid_proto
        else if c
        then err invalid_offset
        else if d
        then err bad_crc_checksum
        else ok (if e then retag v x else retag v y))
      ≡ with_ttl v (
          if a
          then err data_len_le_header
          else if b
          then err invalid_proto
          else if c
          then err invalid_offset
          else if d
          then err bad_crc_checksum
          else ok (if e then x else y))
unfolding retag
with_ttl-checks v true b c d e x y = refl
with_ttl-checks v false true c d e x y = refl
with_ttl-checks v false false true d e x y = refl
with_ttl-checks v false false false true e x y = refl
with_ttl-checks v false false false false true x y = refl
with_ttl-checks v false false false false false x y = refl

module _ (little : Bool) (md5 : List ℕ → List ℕ) (fresh : PacketBuf) (v : ℕ) (fits : v < 256) where
  read_ttl :
      (little : Bool) (b0 b1 b2 b3 b4 b5 b6 b7 b8 b9 : ℕ) (rest : List ℕ)
      → b8 < 256
      → b9 < 256
      → read_packet little fresh.dat (b0 ∷ b1 ∷ b2 ∷ b3 ∷ b4 ∷ b5 ∷ b6 ∷ b7 ∷ b8 ∷ v ∷ rest)
        ≡ record (read_packet little fresh.dat
            (b0 ∷ b1 ∷ b2 ∷ b3 ∷ b4 ∷ b5 ∷ b6 ∷ b7 ∷ b8 ∷ b9 ∷ rest)) { ttl = v }
  unfolding read_packet get_uint
  read_ttl true b0 b1 b2 b3 b4 b5 b6 b7 b8 b9 rest h k = refl
  read_ttl false b0 b1 b2 b3 b4 b5 b6 b7 b8 b9 rest h k =
      let same : (b8 + 256 * (v + 256 * 0)) % 256 ≡ (b8 + 256 * (b9 + 256 * 0)) % 256 =
        omega arith in
      let new : (b8 + 256 * (v + 256 * 0)) / 2 ^ 8 % 256 ≡ v = omega arith in
      λ i.
        record (read_packet false fresh.dat
          (b0 ∷ b1 ∷ b2 ∷ b3 ∷ b4 ∷ b5 ∷ b6 ∷ b7 ∷ b8 ∷ b9 ∷ rest)) { proto = same i; ttl = new i }

  parse_ttl :
      (b0 b1 b2 b3 b4 b5 b6 b7 b8 b9 : ℕ) (rest : List ℕ)
      → b8 < 256
      → b9 < 256
      → parse_packet_header little md5 fresh (b0 ∷ b1 ∷ b2 ∷ b3 ∷ b4 ∷ b5 ∷ b6 ∷ b7 ∷ b8 ∷ v ∷ rest)
        ≡ with_ttl v (
            parse_packet_header little md5 fresh
              (b0 ∷ b1 ∷ b2 ∷ b3 ∷ b4 ∷ b5 ∷ b6 ∷ b7 ∷ b8 ∷ b9 ∷ rest))
  unfolding parse_packet_header bad_offset size header_crc clear_ttl open_body retag
  parse_ttl b0 b1 b2 b3 b4 b5 b6 b7 b8 b9 rest h k =
      let bytes : List ℕ = b0 ∷ b1 ∷ b2 ∷ b3 ∷ b4 ∷ b5 ∷ b6 ∷ b7 ∷ b8 ∷ b9 ∷ rest in
      let p = read_packet little fresh.dat bytes in
      rw (read_ttl little b0 b1 b2 b3 b4 b5 b6 b7 b8 b9 rest h k) (
        with_ttl-checks v (leb (length bytes) 32) (not (is_valid p.proto))
          (bad_offset p (length bytes)) (not (header_crc md5 bytes == p.md5h8))
          (size p + 32 == length bytes)
          (record { dat = record p { hashrem = negsuc 0 }; buffer = fresh.buffer ++ drop 32 bytes })
          (record {
            dat = record p { hashrem = pos (size p) };
            buffer = fresh.buffer ++ replicate (size p) 0;
          }))

  -- The list has its first ten bytes.
  parse_set :
      (bytes : List ℕ)
      → AreBytes bytes
      → 10 ≤ length bytes
      → parse_packet_header little md5 fresh (set bytes 9 v)
        ≡ with_ttl v (parse_packet_header little md5 fresh bytes)
  parse_set (b0 ∷ b1 ∷ b2 ∷ b3 ∷ b4 ∷ b5 ∷ b6 ∷ b7 ∷ b8 ∷ b9 ∷ rest) h n =
      parse_ttl b0 b1 b2 b3 b4 b5 b6 b7 b8 b9 rest h.1.1.1.1.1.1.1.1.0 h.1.1.1.1.1.1.1.1.1.0
  parse_set _ h n = absurd (omega arith)

-- Decrementing the TTL byte of a datagram of at least ten bytes changes nothing for the next host
-- but the TTL: it accepts or refuses the datagram as before, for the same reason, and reads the
-- same packet otherwise.
pub parse-dec_ttl :
    (little : Bool) (md5 : List ℕ → List ℕ) (fresh : PacketBuf) (bytes : List ℕ)
    → AreBytes bytes
    → 10 ≤ length bytes
    → parse_packet_header little md5 fresh (dec_ttl bytes).1
      ≡ with_ttl ((get_or bytes 9 0 + 255) % 256) (parse_packet_header little md5 fresh bytes)
unfolding dec_ttl
parse-dec_ttl little md5 fresh bytes h n =
    parse_set little md5 fresh ((get_or bytes 9 0 + 255) % 256) (omega arith) bytes h n
