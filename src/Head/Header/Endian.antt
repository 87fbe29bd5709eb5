-- ===== src/Head/Header/Endian.antt =====
-- The little-endian memory copy and the big-endian writer produce the same header.
use wire_gold.Common.{
  bit_or_fields, put_uint, ℕ, ◌+◌, ◌*◌, ◌^◌, ◌<◌, bit_or, ◌≡◌, ap₂, true, false, List, [], ◌∷◌,
  arith,
}
use wire_gold.Head.Packet.{Packet}
use wire_gold.Head.Header.{memory_image, written_image, write_header_to}

-- Two bytes written as one word, the first in the low half.
put_uint-two : (lo hi : ℕ) → lo < 256 → hi < 256 → put_uint 2 (hi * 256 + lo) ≡ lo ∷ hi ∷ []
unfolding put_uint
put_uint-two lo hi h k = ap₂ (λ a b. a ∷ b ∷ []) (omega arith) (omega arith)

pub written_image-memory_image :
    (p : Packet) (word : ℕ)
    → word ≡ p.ttl * 256 + p.proto
    → p.proto < 256
    → p.ttl < 256
    → written_image p word ≡ memory_image p
unfolding written_image memory_image
written_image-memory_image p word e h k = rw (e, put_uint-two p.proto p.ttl h k)

-- For a packet whose protocol and TTL are bytes, the header that goes out, with its checksum, does
-- not depend on the byte order of the machine.
pub write_header_to-endian :
    (md5 : List ℕ → List ℕ) (p : Packet)
    → p.proto < 256
    → p.ttl < 256
    → write_header_to false md5 p [] ≡ write_header_to true md5 p []
unfolding write_header_to
write_header_to-endian md5 p h k = rw (
    written_image-memory_image p (bit_or (p.ttl * 2 ^ 8) p.proto) (bit_or_fields 8 p.ttl p.proto h)
      h k)
