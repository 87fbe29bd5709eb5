-- ===== src/Common/Bits.antt =====
-- `&`, `|` and `^` at every width, from one equation for the lowest binary digit.
mod Step
use Step.{bit_and_step, bit_xor_step}
pub use Step.{bit_or_step}
use Prim.Native.Nat.{ℕ, zero, suc, ◌+◌, ◌-◌, ◌*◌, ◌/◌, ◌%◌, ◌^◌, ◌≤◌, ◌<◌, bit_and, bit_or, bit_xor}
use mathlib.Core.Path.{◌≡◌, refl, ap}
use native.Mathlib.Omega.{arith}
use native.Mathlib.Nat.{pow-suc, one-le-pow}

-- An operand of zero; `bound` is used up before the operand is.
or_nothing : (bound x : ℕ) → x ≤ bound → bit_or x 0 ≡ x
or_nothing zero zero le = refl
or_nothing zero (suc x) le = absurd (omega arith)
or_nothing (suc bound) x le = omega (arith, bit_or_step x 0, or_nothing bound (x / 2) (omega arith))

and_nothing : (bound x : ℕ) → x ≤ bound → bit_and x 0 ≡ 0
and_nothing zero zero le = refl
and_nothing zero (suc x) le = absurd (omega arith)
and_nothing (suc bound) x le =
    omega (arith, bit_and_step x 0, and_nothing bound (x / 2) (omega arith))

pub bit_and-zero : (x : ℕ) → bit_and x 0 ≡ 0
bit_and-zero x = and_nothing x x (omega arith)

pub bit_or-zero : (x : ℕ) → bit_or x 0 ≡ x
bit_or-zero x = or_nothing x x (omega arith)

double_shift : (width high : ℕ) → high * 2 ^ suc width ≡ 2 * (high * 2 ^ width)
double_shift width high = omega (arith, ap (λ (t : ℕ). high * t) (pow-suc 2 width))

-- A mask of `width` low bits is the remainder by `2 ^ width`.
mask_low :
    (width high low : ℕ) → low < 2 ^ width → bit_and (high * 2 ^ width + low) (2 ^ width - 1) ≡ low
mask_low zero high low small = ground (arith, bit_and-zero (high * 2 ^ 0 + low))
mask_low (suc width) high low small = ground (
  arith,
  one-le-pow width 2,
  pow-suc 2 width,
  double_shift width high,
  mask_low width high (low / 2) (omega arith),
  bit_and_step (high * 2 ^ suc width + low) (2 ^ suc width - 1),
)

pub bit_and_mask : (width x : ℕ) → bit_and x (2 ^ width - 1) ≡ x % 2 ^ width
bit_and_mask width x =
    ground (arith, mask_low width (x / 2 ^ width) (x % 2 ^ width), one-le-pow width 2)

-- Fields that do not overlap: their disjunction is their sum.
pub bit_or_fields :
    (width high low : ℕ) → low < 2 ^ width → bit_or (high * 2 ^ width) low ≡ high * 2 ^ width + low
bit_or_fields (suc width) high low small = ground (
  arith,
  double_shift width high,
  bit_or_fields width high (low / 2) (omega arith),
  bit_or_step (high * 2 ^ suc width) low,
)
bit_or_fields zero high low small = ground (arith, bit_or-zero high)

-- `^` is an involution in its second argument, and stays within the width of its arguments.
bit_xor_half : (a b : ℕ) → bit_xor a b / 2 ≡ bit_xor (a / 2) (b / 2)
bit_xor_half a b = omega (arith, bit_xor_step a b)

bit_xor_cancel_fuel : (n a b : ℕ) → a ≤ n → b ≤ n → bit_xor (bit_xor a b) b ≡ a
bit_xor_cancel_fuel zero zero zero h k = refl
bit_xor_cancel_fuel zero zero (suc b) h k = absurd (omega arith)
bit_xor_cancel_fuel zero (suc a) b h k = absurd (omega arith)
bit_xor_cancel_fuel (suc n) a b h k = omega (
  arith,
  bit_xor_step a b,
  bit_xor_step (bit_xor a b) b,
  ap (λ (t : ℕ). bit_xor t (b / 2)) (bit_xor_half a b),
  bit_xor_cancel_fuel n (a / 2) (b / 2) (omega arith) (omega arith),
)

pub bit_xor_cancel : (a b : ℕ) → bit_xor (bit_xor a b) b ≡ a
bit_xor_cancel a b = bit_xor_cancel_fuel (a + b) a b (omega arith) (omega arith)

bit_xor_comm_fuel : (n a b : ℕ) → a ≤ n → b ≤ n → bit_xor a b ≡ bit_xor b a
bit_xor_comm_fuel zero zero zero h k = refl
bit_xor_comm_fuel zero zero (suc b) h k = absurd (omega arith)
bit_xor_comm_fuel zero (suc a) b h k = absurd (omega arith)
bit_xor_comm_fuel (suc n) a b h k = omega (
  arith,
  bit_xor_step a b,
  bit_xor_step b a,
  bit_xor_comm_fuel n (a / 2) (b / 2) (omega arith) (omega arith),
)

pub bit_xor_comm : (a b : ℕ) → bit_xor a b ≡ bit_xor b a
bit_xor_comm a b = bit_xor_comm_fuel (a + b) a b (omega arith) (omega arith)

bit_or_comm_fuel : (n a b : ℕ) → a ≤ n → b ≤ n → bit_or a b ≡ bit_or b a
bit_or_comm_fuel zero zero zero h k = refl
bit_or_comm_fuel zero zero (suc b) h k = absurd (omega arith)
bit_or_comm_fuel zero (suc a) b h k = absurd (omega arith)
bit_or_comm_fuel (suc n) a b h k = omega (
  arith,
  bit_or_step a b,
  bit_or_step b a,
  bit_or_comm_fuel n (a / 2) (b / 2) (omega arith) (omega arith),
)

pub bit_or_comm : (a b : ℕ) → bit_or a b ≡ bit_or b a
bit_or_comm a b = bit_or_comm_fuel (a + b) a b (omega arith) (omega arith)

bit_or_half : (a b : ℕ) → bit_or a b / 2 ≡ bit_or (a / 2) (b / 2)
bit_or_half a b = omega (arith, bit_or_step a b)

bit_or_assoc_fuel : (n a b c : ℕ) → a + b + c ≤ n → bit_or (bit_or a b) c ≡ bit_or a (bit_or b c)
bit_or_assoc_fuel zero zero zero zero h = refl
bit_or_assoc_fuel zero zero zero (suc c) h = absurd (omega arith)
bit_or_assoc_fuel zero zero (suc b) c h = absurd (omega arith)
bit_or_assoc_fuel zero (suc a) b c h = absurd (omega arith)
bit_or_assoc_fuel (suc n) a b c h = omega (
  arith,
  bit_or_step (bit_or a b) c,
  bit_or_step a (bit_or b c),
  bit_or_step a b,
  bit_or_step b c,
  ap (λ (t : ℕ). bit_or t (c / 2)) (bit_or_half a b),
  ap (λ (t : ℕ). bit_or (a / 2) t) (bit_or_half b c),
  bit_or_assoc_fuel n (a / 2) (b / 2) (c / 2) (omega arith),
)

pub bit_or_assoc : (a b c : ℕ) → bit_or (bit_or a b) c ≡ bit_or a (bit_or b c)
bit_or_assoc a b c = bit_or_assoc_fuel (a + b + c) a b c (omega arith)

pub bit_xor-lt : (k a b : ℕ) → a < 2 ^ k → b < 2 ^ k → bit_xor a b < 2 ^ k
bit_xor-lt zero zero zero h k' = omega arith
bit_xor-lt zero zero (suc b) h k' = absurd (omega arith)
bit_xor-lt zero (suc a) b h k' = absurd (omega arith)
bit_xor-lt (suc k) a b h k' = omega (
  arith,
  pow-suc 2 k,
  bit_xor_step a b,
  bit_xor-lt k (a / 2) (b / 2) (omega (arith, pow-suc 2 k)) (omega (arith, pow-suc 2 k)),
)
