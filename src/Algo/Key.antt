-- ===== src/Algo/Key.antt =====
-- internal/algo/key.go: expandkeyunit and MixKeys. A key is the list of its bytes.
pub mod Interleave
pub mod Mix
use wire_gold.Common.{
  ltb, leb, ◌==◌, if◌then◌else◌, ltb→lt, lt→ltb, leb→le, le→ltb, lt→leb, le→leb, ==_iff, ==_refl,
  Bool-cases, Option-cases, length, get_elem?, get_or, set, take, drop, replicate, All,
  length-append, length-take, length-drop, length-replicate, take-append-drop, take-append,
  drop-append, take-all, drop-all, drop-nil, drop-drop, take-add, All-append, All-take, All-drop,
  get_or-append_last, take_front, bit_or-zero, bit_and-zero, bit_or_fields, bit_and_mask,
  bit_xor_cancel, bit_xor_comm, bit_or_assoc, bit_xor-lt, IsByte, AreBytes, put_uint, get_uint,
  length-put_uint, put_uint-AreBytes, get_uint-put_uint, get_uint-lt, put_uint-get_uint,
  get_uint-append, get_uint-take, ℕ, zero, suc, ◌+◌, ◌-◌, ◌*◌, ◌/◌, ◌%◌, ◌^◌, ◌≤◌, ◌<◌, min,
  bit_and, bit_or, bit_xor, ◌≡◌, refl, sym, ap, ap₂, ◌∙◌, ◌≢◌, ◌↔◌, ◌⊎◌, inl, inr, Bool, true,
  false, not, ◌&&◌, ◌||◌, Option, none, some, List, [], ◌∷◌, ◌++◌, append_assoc, append-nil, arith,
  pow-suc,
}

-- math/bits.Reverse8 on the low `n` bits of `v`.
pub reverse_bits : ℕ → ℕ → ℕ → ℕ
reverse_bits zero v acc = acc
reverse_bits (suc n) v acc = reverse_bits n (v / 2) (acc * 2 + v % 2)

unfoldable pub reverse8 : ℕ → ℕ
unfolding reverse_bits
reverse8 v = reverse_bits 8 v 0

-- for i := ...: v |= v1s & (1 << (i * 2)); v1s <<= 1, with `n` rounds to go.
pub expand_first : ℕ → ℕ → ℕ → ℕ → ℕ
expand_first zero i v v1s = v
expand_first (suc n) i v v1s =
    expand_first n (i + 1) (bit_or v (bit_and v1s (2 ^ (i * 2) % 2 ^ 16))) (v1s * 2 % 2 ^ 16)

-- for i := ...: v2s <<= 1; v |= v2s & (2 << (i * 2)), with `n` rounds to go.
pub expand_second : ℕ → ℕ → ℕ → ℕ → ℕ
expand_second zero i v v2s = v
expand_second (suc n) i v v2s =
    let shifted = v2s * 2 % 2 ^ 16 in
    expand_second n (i + 1) (bit_or v (bit_and shifted (2 * 2 ^ (i * 2) % 2 ^ 16))) shifted

pub expandkeyunit : ℕ → ℕ → ℕ
expandkeyunit v1 v2 = expand_second 8 0 (expand_first 8 0 0 v1) (reverse8 v2)

-- for i := range k1, where the list is what is left of k1.
pub mix_loop : List ℕ → ℕ → List ℕ → List ℕ
mix_loop [] i k2 = []
mix_loop (k1v ∷ k1) i k2 =
    put_uint 2 (expandkeyunit k1v (get_or k2 (31 - i) 0)) ++ mix_loop k1 (i + 1) k2

-- `none` is the panic on a key that is not 32 bytes long.
unfoldable pub mix_keys : List ℕ → List ℕ → Option (List ℕ)
mix_keys k1 k2 =
    if not (length k1 == 32) || not (length k2 == 32) then none else some (mix_loop k1 0 k2)
