-- ===== src/Common/Bytes.antt =====
-- Bytes and the little-endian words that encoding/binary reads and writes.
use Prim.Native.Nat.{ℕ, zero, suc, ◌+◌, ◌*◌, ◌/◌, ◌%◌, ◌^◌, ◌<◌}
use mathlib.Core.Path.{◌≡◌, refl, ap, ap₂}
use mathlib.Core.List.{List, [], ◌∷◌, ◌++◌}
use native.Mathlib.Omega.{arith}
use native.Mathlib.Nat.{pow-suc, one-le-pow}
use wire_gold.Common.Lists.{length, All, take, get_or}

abbrev pub IsByte : ℕ → Type 0
IsByte b = b < 256

abbrev pub AreBytes : List ℕ → Type 0
AreBytes = All IsByte

-- The `k` bytes of a word, lowest first (PutUint16, PutUint32, PutUint64 at k = 2, 4, 8).
unfoldable pub put_uint : ℕ → ℕ → List ℕ
put_uint zero v = []
put_uint (suc k) v = (v % 256) ∷ put_uint k (v / 256)

-- The word that `k` bytes stand for, lowest first (Uint16, Uint32, Uint64 on a slice of that length).
unfoldable pub get_uint : ℕ → List ℕ → ℕ
get_uint zero bs = 0
get_uint (suc k) [] = 0
get_uint (suc k) (b ∷ bs) = b + 256 * get_uint k bs

pub length-put_uint : (k v : ℕ) → length (put_uint k v) ≡ k
unfolding put_uint
length-put_uint zero v = refl
length-put_uint (suc k) v = ap suc (length-put_uint k (v / 256))

pub put_uint-AreBytes : (k v : ℕ) → AreBytes (put_uint k v)
unfolding put_uint
put_uint-AreBytes zero v = tt
put_uint-AreBytes (suc k) v = (omega arith, put_uint-AreBytes k (v / 256))

-- Reading back a word that fits, whatever follows.
pub get_uint-put_uint :
    (k v : ℕ) (rest : List ℕ) → v < 256 ^ k → get_uint k (put_uint k v ++ rest) ≡ v
unfolding put_uint get_uint
get_uint-put_uint zero v rest h = omega arith
get_uint-put_uint (suc k) v rest h =
    omega (arith, get_uint-put_uint k (v / 256) rest (omega (arith, pow-suc 256 k)))

pub get_uint-lt : (k : ℕ) (bs : List ℕ) → AreBytes bs → get_uint k bs < 256 ^ k
unfolding get_uint
get_uint-lt zero bs h = omega arith
get_uint-lt (suc k) [] h = one-le-pow (suc k) 256 (omega arith)
get_uint-lt (suc k) (b ∷ bs) h = omega (arith, pow-suc 256 k, get_uint-lt k bs h.1, h.0)

-- Writing back a word that was read gives the same bytes.
pub put_uint-get_uint :
    (k : ℕ) (bs : List ℕ) → AreBytes bs → length bs ≡ k → put_uint k (get_uint k bs) ≡ bs
unfolding put_uint get_uint
put_uint-get_uint zero [] h e = refl
put_uint-get_uint zero (b ∷ bs) h e = absurd (omega arith)
put_uint-get_uint (suc k) [] h e = absurd (omega arith)
put_uint-get_uint (suc k) (b ∷ bs) h e = ground (arith, put_uint-get_uint k bs h.1 (omega arith))

-- `k` bytes of a list that starts with them are all that is read.
pub get_uint-append :
    (k : ℕ) (bs rest : List ℕ) → length bs ≡ k → get_uint k (bs ++ rest) ≡ get_uint k bs
unfolding get_uint
get_uint-append zero bs rest e = refl
get_uint-append (suc k) [] rest e = absurd (omega arith)
get_uint-append (suc k) (b ∷ bs) rest e =
    ap (λ (t : ℕ). b + 256 * t) (get_uint-append k bs rest (omega arith))

-- Only the first `k` bytes are read.
pub get_uint-take : (k : ℕ) (bs : List ℕ) → get_uint k bs ≡ get_uint k (take k bs)
unfolding get_uint
get_uint-take zero bs = refl
get_uint-take (suc k) [] = refl
get_uint-take (suc k) (b ∷ bs) = ap (λ (t : ℕ). b + 256 * t) (get_uint-take k bs)

-- Byte strings of one length with the same bytes are equal.
pub get_or_ext :
    (xs ys : List ℕ)
    → length xs ≡ length ys
    → ((i : ℕ) → i < length xs → get_or xs i 0 ≡ get_or ys i 0)
    → xs ≡ ys
get_or_ext [] [] n h = refl
get_or_ext [] (y ∷ ys) n h = absurd (omega arith)
get_or_ext (x ∷ xs) [] n h = absurd (omega arith)
get_or_ext (x ∷ xs) (y ∷ ys) n h =
    ap₂ ◌∷◌ (h 0 (omega arith)) (get_or_ext xs ys (omega arith) (λ i lt. h (suc i) (omega arith)))
