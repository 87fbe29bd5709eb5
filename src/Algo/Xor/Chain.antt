-- ===== src/Algo/Xor/Chain.antt =====
-- The two loops of the masking code, word by word.
use wire_gold.Common.{
  length, take, drop, length-take, length-drop, drop-append, take-add, All-take, All-drop,
  bit_xor_cancel, bit_xor_comm, bit_xor-lt, IsByte, AreBytes, put_uint, get_uint, length-put_uint,
  get_uint-put_uint, get_uint-lt, put_uint-get_uint, get_uint-take, ℕ, zero, suc, ◌+◌, ◌*◌, ◌^◌,
  ◌≤◌, ◌<◌, bit_xor, ◌≡◌, refl, sym, ap, ap₂, ◌∙◌, List, [], ◌++◌, append_assoc, append-nil, arith,
}
use wire_gold.Algo.Xor.{xor_batches, unxor_batches}

pub xor_self : (a b : ℕ) → bit_xor a (bit_xor a b) ≡ b
xor_self a b = rw (bit_xor_comm a b, bit_xor_comm a (bit_xor b a)) (bit_xor_cancel b a)

-- A whole word at the front of the data is what its value writes.
pub word_of_take :
    (bs : List ℕ) → AreBytes bs → 8 ≤ length bs → put_uint 8 (get_uint 8 bs) ≡ take 8 bs
word_of_take bs h n =
    ap (put_uint 8) (get_uint-take 8 bs)
    ∙ put_uint-get_uint 8 (take 8 bs) (All-take IsByte 8 bs h) (omega (arith, length-take 8 bs))

unxor_batches-zero : (sum : ℕ) (bytes : List ℕ) → unxor_batches 0 sum bytes ≡ bytes
unfolding unxor_batches
unxor_batches-zero sum bytes = refl

pub unxor-word :
    (n sum w : ℕ) (rest : List ℕ)
    → bit_xor sum w < 2 ^ 64
    → unxor_batches (suc n) sum (put_uint 8 (bit_xor sum w) ++ rest)
      ≡ put_uint 8 w ++ unxor_batches n (bit_xor sum w) rest
unfolding unxor_batches
unxor-word n sum w rest h =
    rw
      (
        get_uint-put_uint 8 (bit_xor sum w) rest h,
        xor_self sum w,
        drop-append 8 (put_uint 8 (bit_xor sum w)) rest (length-put_uint 8 (bit_xor sum w)),
      )
      refl

take_word : (n : ℕ) (bs : List ℕ) → take (suc n * 8) bs ≡ take 8 bs ++ take (n * 8) (drop 8 bs)
take_word n bs = rw count (take-add 8 (n * 8) bs)
  where
    count : suc n * 8 ≡ 8 + n * 8
    count = omega arith

-- The decoding loop undoes the encoding loop, and the last word after it.
pub unxor_batches-xor_batches :
    (n sum : ℕ) (bytes : List ℕ) (last : ℕ)
    → AreBytes bytes
    → n * 8 ≤ length bytes
    → sum < 2 ^ 64
    → last < 2 ^ 64
    → unxor_batches
        (suc n)
        sum
        ((xor_batches n sum bytes).0 ++ put_uint 8 (bit_xor (xor_batches n sum bytes).1 last))
      ≡ take (n * 8) bytes ++ put_uint 8 last
unfolding xor_batches
unxor_batches-xor_batches zero sum bytes last h fits hs hl =
    ap (unxor_batches 1 sum) (sym (append-nil (put_uint 8 (bit_xor sum last))))
    ∙ unxor-word 0 sum last [] (bit_xor-lt 64 sum last hs hl)
    ∙ ap (λ l. put_uint 8 last ++ l) (unxor_batches-zero (bit_xor sum last) [])
    ∙ append-nil (put_uint 8 last)
unxor_batches-xor_batches (suc n) sum bytes last h fits hs hl =
    let w = get_uint 8 bytes in
    let rest = xor_batches n (bit_xor sum w) (drop 8 bytes) in
    let wide = bit_xor-lt 64 sum w hs (get_uint-lt 8 bytes h) in
    ap (unxor_batches (suc (suc n)) sum)
      (append_assoc (put_uint 8 (bit_xor sum w)) rest.0 (put_uint 8 (bit_xor rest.1 last)))
    ∙ unxor-word (suc n) sum w (rest.0 ++ put_uint 8 (bit_xor rest.1 last)) wide
    ∙ ap₂ ◌++◌ (word_of_take bytes h (omega arith)) (
        unxor_batches-xor_batches n (bit_xor sum w) (drop 8 bytes) last (All-drop IsByte 8 bytes h)
          (omega (arith, length-drop 8 bytes)) wide hl)
    ∙ sym (append_assoc (take 8 bytes) (take (n * 8) (drop 8 bytes)) (put_uint 8 last))
    ∙ ap (λ l. l ++ put_uint 8 last) (sym (take_word n bytes))
