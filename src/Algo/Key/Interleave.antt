-- ===== src/Algo/Key/Interleave.antt =====
-- expandkeyunit interleaves the bits of its two bytes.
use wire_gold.Common.{
  ltb, ◌==◌, ==_iff, all_below, all_below_sound, bit_or_step, bit_or-zero, bit_or_assoc, ℕ, zero,
  suc, ◌+◌, ◌*◌, ◌/◌, ◌%◌, ◌^◌, ◌<◌, bit_and, bit_or, ◌≡◌, refl, sym, ap, ap₂, ◌∙◌, true, ◌&&◌,
  arith, pow-suc,
}
use wire_gold.Algo.Key.{reverse8, expand_first, expand_second, expandkeyunit}

-- The `n` low bits of `x`, each moved to twice its position.
pub spread : ℕ → ℕ → ℕ
spread zero x = 0
spread (suc n) x = x % 2 + 4 * spread n (x / 2)

first_table : all_below 256 (λ x. expand_first 8 0 0 x == spread 8 x) ≡ true
unfolding all_below expand_first spread
first_table = refl

second_table : all_below 256 (λ x. expand_second 8 0 0 x == 2 * spread 8 x) ≡ true
unfolding all_below expand_second spread
second_table = refl

reverse_table : all_below 256 (λ x. reverse8 (reverse8 x) == x && ltb (reverse8 x) 256) ≡ true
unfolding all_below reverse8
reverse_table = refl

first_spread : (x : ℕ) → x < 256 → expand_first 8 0 0 x ≡ spread 8 x
first_spread x h = (==_iff _ _).0 (all_below_sound 256 _ x first_table h)

second_spread : (x : ℕ) → x < 256 → expand_second 8 0 0 x ≡ 2 * spread 8 x
second_spread x h = (==_iff _ _).0 (all_below_sound 256 _ x second_table h)

pub reverse8_involution : (x : ℕ) → x < 256 → (reverse8 (reverse8 x) ≡ x) × (reverse8 x < 256)
reverse8_involution x h =
    let t : (reverse8 (reverse8 x) == x && ltb (reverse8 x) 256) ≡ true =
      all_below_sound 256 (λ x. reverse8 (reverse8 x) == x && ltb (reverse8 x) 256) x reverse_table
        h in
    ground arith

-- What the second loop adds does not depend on what the first one left.
expand_second_or :
    (n i v w s : ℕ) → expand_second n i (bit_or v w) s ≡ bit_or v (expand_second n i w s)
unfolding expand_second
expand_second_or zero i v w s = refl
expand_second_or (suc n) i v w s =
    rw (bit_or_assoc v w (bit_and (s * 2 % 2 ^ 16) (2 * 2 ^ (i * 2) % 2 ^ 16)))
      (expand_second_or n (i + 1) v _ _)

spread_or : (n a b : ℕ) → bit_or (spread n a) (2 * spread n b) ≡ spread n a + 2 * spread n b
unfolding spread
spread_or zero a b = refl
spread_or (suc n) a b = omega (
  arith,
  bit_or_step (a % 2 + 4 * spread n (a / 2)) (2 * (b % 2 + 4 * spread n (b / 2))),
  bit_or_step (2 * spread n (a / 2)) (b % 2 + 4 * spread n (b / 2)),
  halves (a % 2) (b % 2) (spread n (a / 2)) (spread n (b / 2)) (omega arith) (omega arith),
  spread_or n (a / 2) (b / 2),
)
  where
    halves :
        (x y s t : ℕ)
        → x < 2
        → y < 2
        → (bit_or ((x + 4 * s) / 2) (2 * (y + 4 * t) / 2) ≡ bit_or (2 * s) (y + 4 * t))
          × (bit_or (2 * s / 2) ((y + 4 * t) / 2) ≡ bit_or s (2 * t))
    halves x y s t h k =
        (ap₂ bit_or (omega arith) (omega arith), ap₂ bit_or (omega arith) (omega arith))

-- For two bytes, a unit of the mixed key has the bits of the first at its even places and those of
-- the reversed second at its odd ones.
pub expandkeyunit_interleaves :
    (v1 v2 : ℕ)
    → v1 < 256
    → v2 < 256
    → expandkeyunit v1 v2 ≡ spread 8 v1 + 2 * spread 8 (reverse8 v2)
unfolding expandkeyunit
expandkeyunit_interleaves v1 v2 h k =
    ap (λ (t : ℕ). expand_second 8 0 t (reverse8 v2))
      (first_spread v1 h ∙ sym (bit_or-zero (spread 8 v1)))
    ∙ expand_second_or 8 0 (spread 8 v1) 0 (reverse8 v2)
    ∙ ap (bit_or (spread 8 v1)) (second_spread (reverse8 v2) (reverse8_involution v2 k).1)
    ∙ spread_or 8 v1 (reverse8 v2)

-- The two bytes can be read back from the interleaved bits.
pub spread_injective :
    (n a b c d : ℕ)
    → a < 2 ^ n
    → b < 2 ^ n
    → c < 2 ^ n
    → d < 2 ^ n
    → spread n a + 2 * spread n b ≡ spread n c + 2 * spread n d
    → (a ≡ c) × (b ≡ d)
unfolding spread
spread_injective zero a b c d ha hb hc hd e = omega arith
spread_injective (suc n) a b c d ha hb hc hd e = omega (
  arith,
  pow-suc 2 n,
  spread_injective n (a / 2) (b / 2) (c / 2) (d / 2) (omega (arith, pow-suc 2 n))
      (omega (arith, pow-suc 2 n)) (omega (arith, pow-suc 2 n)) (omega (arith, pow-suc 2 n))
      (omega arith),
)

pub spread-lt : (n x : ℕ) → 3 * spread n x < 4 ^ n
unfolding spread
spread-lt zero x = omega arith
spread-lt (suc n) x = omega (arith, pow-suc 4 n, spread-lt n (x / 2))
