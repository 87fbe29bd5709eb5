-- ===== src/Algo/Xor/Reject.antt =====
-- What DecodeXOR guarantees of its result on any datagram.
use wire_gold.Common.{
  length, get_or, take, drop, length-append, length-take, length-drop, put_uint, get_uint,
  length-put_uint, ℕ, zero, suc, ◌+◌, ◌-◌, ◌*◌, ◌/◌, ◌%◌, ◌≤◌, ◌<◌, bit_xor, ◌≡◌, refl, some, List,
  arith,
}
use wire_gold.Algo.Xor.{decode_xor, unxor_batches, read_plain, decoded_part}

length-unxor_batches :
    (n sum : ℕ) (bytes : List ℕ)
    → n * 8 ≤ length bytes
    → length (unxor_batches n sum bytes) ≡ length bytes
unfolding unxor_batches
length-unxor_batches zero sum bytes h = refl
length-unxor_batches (suc n) sum bytes h =
    let x = get_uint 8 bytes in
    omega (
      arith,
      length-append (put_uint 8 (bit_xor sum x)) (unxor_batches n x (drop 8 bytes)),
      length-put_uint 8 (bit_xor sum x),
      length-drop 8 bytes,
      length-unxor_batches n x (drop 8 bytes) (omega (arith, length-drop 8 bytes)),
    )

length-decoded_part :
    (plain : List ℕ) (remain : ℕ)
    → 16 ≤ length plain
    → remain < 8
    → length (decoded_part plain remain) + 16 ≡ length plain + remain
unfolding decoded_part
length-decoded_part plain remain h k = omega (
  arith,
  length-drop 8 (take (length plain - 8 + remain) plain),
  length-take (length plain - 8 + remain) plain,
)

read_plain-length :
    (plain : List ℕ) (seq : ℕ) (result : List ℕ)
    → 16 ≤ length plain
    → read_plain plain ≡ (seq, some result)
    → (length plain ≤ length result + 16) × (length result + 9 ≤ length plain)
unfolding read_plain
read_plain-length plain seq result h e =
    ground (arith, length-decoded_part plain (get_or plain (length plain - 1) 0) h)

-- Data comes out of a datagram only if it is a whole number of words, two at least, and is nine to
-- sixteen bytes shorter.
pub decode_xor-length :
    (bytes : List ℕ) (mask seq : ℕ) (result : List ℕ)
    → decode_xor bytes mask ≡ (seq, some result)
    → (16 ≤ length bytes)
      × (length bytes % 8 ≡ 0)
      × (length bytes ≤ length result + 16)
      × (length result + 9 ≤ length bytes)
unfolding decode_xor
decode_xor-length bytes mask seq result e = ground (
  arith,
  length-unxor_batches (length bytes / 8) mask bytes (omega arith),
  read_plain-length (unxor_batches (length bytes / 8) mask bytes) seq result,
)
