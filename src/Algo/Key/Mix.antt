-- ===== src/Algo/Key/Mix.antt =====
-- What MixKeys does to two whole keys.
use wire_gold.Common.{
  length, get_or, drop, length-append, drop-append, AreBytes, put_uint, get_uint, length-put_uint,
  get_uint-put_uint, get_or_ext, ℕ, zero, suc, ◌+◌, ◌-◌, ◌*◌, ◌^◌, ◌≤◌, ◌<◌, ◌≡◌, refl, sym, ap,
  ap₂, ◌∙◌, some, List, [], ◌∷◌, ◌++◌, arith, dec_lt,
}
use wire_gold.Algo.Key.{reverse8, expandkeyunit, mix_loop, mix_keys}
use wire_gold.Algo.Key.Interleave.{
  expandkeyunit_interleaves, spread_injective, spread-lt, reverse8_involution,
}

expandkeyunit-lt : (v1 v2 : ℕ) → v1 < 256 → v2 < 256 → expandkeyunit v1 v2 < 256 ^ 2
expandkeyunit-lt v1 v2 h k =
    omega (arith, expandkeyunit_interleaves v1 v2 h k, spread-lt 8 v1, spread-lt 8 (reverse8 v2))

expandkeyunit_injective :
    (a b c d : ℕ)
    → a < 256
    → b < 256
    → c < 256
    → d < 256
    → expandkeyunit a b ≡ expandkeyunit c d
    → (a ≡ c) × (b ≡ d)
expandkeyunit_injective a b c d ha hb hc hd e =
    let same =
      spread_injective 8 a (reverse8 b) c (reverse8 d) ha (reverse8_involution b hb).1 hc
        (reverse8_involution d hd).1
        (sym (expandkeyunit_interleaves a b ha hb) ∙ e ∙ expandkeyunit_interleaves c d hc hd) in
    (same.0, sym (reverse8_involution b hb).0 ∙ ap reverse8 same.1 ∙ (reverse8_involution d hd).0)

get_or-lt : (bs : List ℕ) (i : ℕ) → AreBytes bs → get_or bs i 0 < 256
get_or-lt [] i h = omega arith
get_or-lt (b ∷ bs) zero h = h.0
get_or-lt (b ∷ bs) (suc i) h = get_or-lt bs i h.1

length-mix_loop : (k1 : List ℕ) (i : ℕ) (k2 : List ℕ) → length (mix_loop k1 i k2) ≡ 2 * length k1
unfolding mix_loop
length-mix_loop [] i k2 = refl
length-mix_loop (v ∷ k1) i k2 =
    let unit = expandkeyunit v (get_or k2 (31 - i) 0) in
    omega (
      arith,
      length-append (put_uint 2 unit) (mix_loop k1 (i + 1) k2),
      length-put_uint 2 unit,
      length-mix_loop k1 (i + 1) k2,
    )

word_append_injective :
    (u v : ℕ) (us vs : List ℕ)
    → u < 256 ^ 2
    → v < 256 ^ 2
    → put_uint 2 u ++ us ≡ put_uint 2 v ++ vs
    → (u ≡ v) × (us ≡ vs)
word_append_injective u v us vs hu hv e = (
  sym (get_uint-put_uint 2 u us hu) ∙ ap (get_uint 2) e ∙ get_uint-put_uint 2 v vs hv,
  sym (drop-append 2 (put_uint 2 u) us (length-put_uint 2 u))
      ∙ ap (drop 2) e
      ∙ drop-append 2 (put_uint 2 v) vs (length-put_uint 2 v),
)

agree_from :
    (f g : ℕ → ℕ) (i n : ℕ)
    → f i ≡ g i
    → ((j : ℕ) → i + 1 ≤ j → j < i + 1 + n → f j ≡ g j)
    → (j : ℕ) → i ≤ j
    → j < i + suc n
    → f j ≡ g j
agree_from f g i n first later j lo hi = elim (dec_lt i j) [
  | yes p ↦ later j (omega arith) (omega arith)
  | no p ↦ let e : i ≡ j = omega arith in ap f (sym e) ∙ first ∙ ap g e
]

-- Equal outputs come of equal bytes, the second key's from index 31 - i downwards.
mix_loop_injective :
    (k1 l1 : List ℕ) (i : ℕ) (k2 l2 : List ℕ)
    → AreBytes k1
    → AreBytes l1
    → AreBytes k2
    → AreBytes l2
    → length k1 ≡ length l1
    → mix_loop k1 i k2 ≡ mix_loop l1 i l2
    → (k1 ≡ l1)
      × ((j : ℕ) → i ≤ j → j < i + length k1 → get_or k2 (31 - j) 0 ≡ get_or l2 (31 - j) 0)
unfolding mix_loop
mix_loop_injective [] [] i k2 l2 h1 h2 h3 h4 n e = (refl, λ j p q. absurd (omega arith))
mix_loop_injective [] (w ∷ l1) i k2 l2 h1 h2 h3 h4 n e = absurd (omega arith)
mix_loop_injective (v ∷ k1) [] i k2 l2 h1 h2 h3 h4 n e = absurd (omega arith)
mix_loop_injective (v ∷ k1) (w ∷ l1) i k2 l2 h1 h2 h3 h4 n e =
    let x = get_or k2 (31 - i) 0 in
    let y = get_or l2 (31 - i) 0 in
    let hx = get_or-lt k2 (31 - i) h3 in
    let hy = get_or-lt l2 (31 - i) h4 in
    let units =
      word_append_injective (expandkeyunit v x) (expandkeyunit w y) (mix_loop k1 (i + 1) k2)
        (mix_loop l1 (i + 1) l2) (expandkeyunit-lt v x h1.0 hx) (expandkeyunit-lt w y h2.0 hy) e in
    let same = expandkeyunit_injective v x w y h1.0 hx h2.0 hy units.0 in
    let rest = mix_loop_injective k1 l1 (i + 1) k2 l2 h1.1 h2.1 h3 h4 (omega arith) units.1 in
    (
      ap₂ ◌∷◌ same.0 rest.0,
      agree_from (λ j. get_or k2 (31 - j) 0) (λ j. get_or l2 (31 - j) 0) i (length k1) same.1
          rest.1,
    )

mix_keys-some :
    (k1 k2 mixed : List ℕ)
    → mix_keys k1 k2 ≡ some mixed
    → (length k1 ≡ 32) × (length k2 ≡ 32) × (mixed ≡ mix_loop k1 0 k2)
unfolding mix_keys
mix_keys-some k1 k2 mixed e = ground arith

-- Different pairs of keys, of 32 bytes each, never give the same mixed key.
pub mix_keys_injective :
    (k1 k2 l1 l2 mixed : List ℕ)
    → AreBytes k1
    → AreBytes k2
    → AreBytes l1
    → AreBytes l2
    → mix_keys k1 k2 ≡ some mixed
    → mix_keys l1 l2 ≡ some mixed
    → (k1 ≡ l1) × (k2 ≡ l2)
mix_keys_injective k1 k2 l1 l2 mixed h1 h2 h3 h4 e f =
    let p = mix_keys-some k1 k2 mixed e in
    let q = mix_keys-some l1 l2 mixed f in
    let same = mix_loop_injective k1 l1 0 k2 l2 h1 h3 h2 h4 (omega arith) (sym p.2 ∙ q.2) in
    (
      same.0,
      get_or_ext k2 l2 (omega arith) (λ i lt.
          let back : 31 - (31 - i) ≡ i = omega arith in
          ap (λ (t : ℕ). get_or k2 t 0) (sym back)
          ∙ same.1 (31 - i) (omega arith) (omega arith)
          ∙ ap (λ (t : ℕ). get_or l2 t 0) back),
    )
