-- ===== src/Algo/Hash.antt =====
-- internal/algo/hash.go: Blake2bHash8 and IsVaildBlake2bHash8. `blake` stands for BLAKE2b-256.
use wire_gold.Common.{
  ◌==◌, length, take, drop, length-take, take-append, drop-append, All-take, IsByte, AreBytes,
  put_uint, get_uint, length-put_uint, get_uint-lt, put_uint-get_uint, ℕ, ◌^◌, ◌<◌, ◌≡◌, refl, Bool,
  true, false, ◌&&◌, List, [], ◌∷◌, ◌++◌, arith,
}

abbrev pub same_bytes : List ℕ → List ℕ → Bool
same_bytes [] [] = true
same_bytes [] (y ∷ ys) = false
same_bytes (x ∷ xs) [] = false
same_bytes (x ∷ xs) (y ∷ ys) = x == y && same_bytes xs ys

pub same_bytes_refl : (xs : List ℕ) → same_bytes xs xs ≡ true
same_bytes_refl [] = refl
same_bytes_refl (x ∷ xs) = ground (arith, same_bytes_refl xs)

unfoldable pub blake2b_hash8 : (List ℕ → List ℕ) → ℕ → List ℕ → ℕ
blake2b_hash8 blake precrc64 bytes = get_uint 8 (take 8 (blake (put_uint 8 precrc64 ++ bytes)))

pub is_valid_blake2b_hash8 : (List ℕ → List ℕ) → ℕ → List ℕ → Bool
is_valid_blake2b_hash8 blake precrc64 hash8data =
    same_bytes (take 8 (blake (put_uint 8 precrc64 ++ drop 8 hash8data))) (take 8 hash8data)

-- BLAKE2b-256 returns 32 bytes.
abbrev pub IsBlake : (List ℕ → List ℕ) → Type 0
IsBlake blake = (bytes : List ℕ) → AreBytes (blake bytes) × (length (blake bytes) ≡ 32)

pub blake2b_hash8-lt :
    (blake : List ℕ → List ℕ) (precrc64 : ℕ) (bytes : List ℕ)
    → IsBlake blake
    → blake2b_hash8 blake precrc64 bytes < 2 ^ 64
unfolding blake2b_hash8
blake2b_hash8-lt blake precrc64 bytes h =
    get_uint-lt 8 (take 8 (blake (put_uint 8 precrc64 ++ bytes))) (All-take IsByte 8 _ (h _).0)

-- Data behind the hash that the sender computes passes the check of the receiver, for a BLAKE2b
-- that gives 32 bytes.
pub is_valid-blake2b_hash8 :
    (blake : List ℕ → List ℕ) (precrc64 : ℕ) (bytes : List ℕ)
    → IsBlake blake
    → is_valid_blake2b_hash8 blake precrc64
        (put_uint 8 (blake2b_hash8 blake precrc64 bytes) ++ bytes)
      ≡ true
unfolding is_valid_blake2b_hash8 blake2b_hash8
is_valid-blake2b_hash8 blake precrc64 bytes h =
    let sum = blake (put_uint 8 precrc64 ++ bytes) in
    let word = put_uint 8 (get_uint 8 (take 8 sum)) in
    rw
      (
        drop-append 8 word bytes (length-put_uint 8 (get_uint 8 (take 8 sum))),
        take-append 8 word bytes (length-put_uint 8 (get_uint 8 (take 8 sum))),
        put_uint-get_uint 8 (take 8 sum) (All-take IsByte 8 sum (h _).0)
            (omega (arith, length-take 8 sum, (h (put_uint 8 precrc64 ++ bytes)).1)),
      )
      (same_bytes_refl (take 8 sum))
