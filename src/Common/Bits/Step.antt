-- ===== src/Common/Bits/Step.antt =====
-- One binary digit of each native bit operation; the operations are defined on fuel.
use Prim.Native.Nat.{
  ℕ, zero, suc, ◌+◌, ◌-◌, ◌*◌, ◌/◌, ◌%◌, ◌≤◌, ◌<◌, min, max, digits, bitwise, differ, bit_and,
  bit_or, bit_xor, bit_and-bitwise, bit_or-bitwise, bit_xor-bitwise,
}
use mathlib.Core.Path.{◌≡◌, refl, ap, ◌∙◌}
use native.Mathlib.Omega.{arith}

-- `x` is the first operand, which the fuel bounds; `last` is what is left of the second one.
module _ (last : ℕ → ℕ) (op : ℕ → ℕ → ℕ) where
  one_more : (fuel x y : ℕ) → x ≤ fuel → digits last op (suc fuel) x y ≡ digits last op fuel x y
  one_more zero zero y h = refl
  one_more zero (suc x) y h = absurd (omega arith)
  one_more (suc fuel) zero y h = refl
  one_more (suc fuel) (suc x) y h = rw (one_more fuel (suc x / 2) (y / 2) (omega arith)) refl

  some_more : (k x y : ℕ) → digits last op (k + x) x y ≡ bitwise last op x y
  some_more zero x y = ap (λ (fuel : ℕ). digits last op fuel x y) start
    where
      start : 0 + x ≡ x
      start = omega arith
  some_more (suc k) x y =
      ap (λ (fuel : ℕ). digits last op fuel x y) next
      ∙ one_more (k + x) x y (omega arith)
      ∙ some_more k x y
    where
      next : suc k + x ≡ suc (k + x)
      next = omega arith

  halved : (x y : ℕ) → digits last op x (suc x / 2) y ≡ bitwise last op (suc x / 2) y
  halved x y =
      ap (λ (fuel : ℕ). digits last op fuel (suc x / 2) y) enough
      ∙ some_more (x - suc x / 2) (suc x / 2) y
    where
      enough : x ≡ (x - suc x / 2) + suc x / 2
      enough = omega arith

  lowest_digit :
      (x y : ℕ)
      → bitwise last op (suc x) y ≡ bitwise last op (suc x / 2) (y / 2) * 2 + op (suc x % 2) (y % 2)
  lowest_digit x y = ap (λ (t : ℕ). t * 2 + op (suc x % 2) (y % 2)) (halved x (y / 2))

differ_digits : (x y : ℕ) → x < 2 → y < 2 → differ x y ≡ (x + y) % 2
differ_digits zero y h k = omega arith
differ_digits (suc x) zero h k = omega arith
differ_digits (suc zero) (suc zero) h k = omega arith
differ_digits (suc zero) (suc (suc y)) h k = absurd (omega arith)
differ_digits (suc (suc x)) (suc y) h k = absurd (omega arith)

pub bit_xor_step : (x y : ℕ) → bit_xor x y ≡ bit_xor (x / 2) (y / 2) * 2 + (x + y) % 2
bit_xor_step zero y = simp bit_xor-bitwise (omega arith)
bit_xor_step (suc x) y = omega (
  arith,
  bit_xor-bitwise (suc x) y,
  bit_xor-bitwise (suc x / 2) (y / 2),
  lowest_digit (λ t. t) differ x y,
  differ_digits (suc x % 2) (y % 2) (omega arith) (omega arith),
)

pub bit_and_step : (x y : ℕ) → bit_and x y ≡ bit_and (x / 2) (y / 2) * 2 + min (x % 2) (y % 2)
bit_and_step zero y = simp bit_and-bitwise (omega arith)
bit_and_step (suc x) y = simp bit_and-bitwise (lowest_digit (λ t. 0) min x y)

pub bit_or_step : (x y : ℕ) → bit_or x y ≡ bit_or (x / 2) (y / 2) * 2 + max (x % 2) (y % 2)
bit_or_step zero y = simp bit_or-bitwise (omega arith)
bit_or_step (suc x) y = simp bit_or-bitwise (lowest_digit (λ t. t) max x y)
