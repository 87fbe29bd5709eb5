-- ===== src/Head/Reassembly/Paste.antt =====
-- Pieces of a body copied to their places, in any order.
use wire_gold.Common.{
  length, get_or, take, drop, Some, All, length-append, length-take, length-drop, take-all,
  get_or_ext, ℕ, zero, suc, ◌+◌, ◌-◌, ◌≤◌, ◌<◌, ◌≡◌, refl, ap, ◌∙◌, ◌⊎◌, inl, inr, List, [], ◌∷◌,
  ◌++◌, arith, dec_lt,
}
use wire_gold.Head.Unbox.{copy_at}

-- A piece of a body: its offset and its bytes.
abbrev pub Piece : Type 0
Piece = ℕ × List ℕ

-- The piece is not empty and stands in the body at its offset.
abbrev pub IsPiece : List ℕ → Piece → Type 0
IsPiece body q =
    (0 < length q.1)
    × (q.0 + length q.1 ≤ length body)
    × ((j : ℕ) → j < length q.1 → get_or q.1 j 0 ≡ get_or body (q.0 + j) 0)

abbrev pub InPiece : Piece → ℕ → Type 0
InPiece q j = (q.0 ≤ j) × (j < q.0 + length q.1)

-- Some piece holds the byte at index `j`.
abbrev pub Covered : List Piece → ℕ → Type 0
Covered qs j = Some (λ q. InPiece q j) qs

unfoldable pub paste : List ℕ → List Piece → List ℕ
paste buf [] = buf
paste buf (q ∷ qs) = paste (copy_at buf q.0 q.1) qs

get_or-append_left :
    (xs ys : List ℕ) (j : ℕ) → j < length xs → get_or (xs ++ ys) j 0 ≡ get_or xs j 0
get_or-append_left [] ys j h = absurd (omega arith)
get_or-append_left (x ∷ xs) ys zero h = refl
get_or-append_left (x ∷ xs) ys (suc j) h = get_or-append_left xs ys j (omega arith)

get_or-append_right :
    (xs ys : List ℕ) (j k : ℕ) → j ≡ length xs + k → get_or (xs ++ ys) j 0 ≡ get_or ys k 0
get_or-append_right [] ys j k h = ap (λ (t : ℕ). get_or ys t 0) {y = k} (omega arith)
get_or-append_right (x ∷ xs) ys zero k h = absurd (omega arith)
get_or-append_right (x ∷ xs) ys (suc j) k h = get_or-append_right xs ys j k (omega arith)

pub get_or-take : (n : ℕ) (xs : List ℕ) (j : ℕ) → j < n → get_or (take n xs) j 0 ≡ get_or xs j 0
get_or-take zero xs j h = absurd (omega arith)
get_or-take (suc n) [] j h = refl
get_or-take (suc n) (x ∷ xs) zero h = refl
get_or-take (suc n) (x ∷ xs) (suc j) h = get_or-take n xs j (omega arith)

pub get_or-drop : (n : ℕ) (xs : List ℕ) (j : ℕ) → get_or (drop n xs) j 0 ≡ get_or xs (n + j) 0
get_or-drop zero xs j = ap (λ (t : ℕ). get_or xs t 0) (omega arith)
get_or-drop (suc n) [] j = refl
get_or-drop (suc n) (x ∷ xs) j = get_or-drop n xs j ∙ ap (λ (t : ℕ). get_or (x ∷ xs) t 0) next
  where
    next : suc (n + j) ≡ suc n + j
    next = omega arith

module _ (buf : List ℕ) (o : ℕ) (bytes : List ℕ) (within : o + length bytes ≤ length buf) where
  pub length-copy_at : length (copy_at buf o bytes) ≡ length buf
  unfolding copy_at
  length-copy_at = omega (
    arith,
    length-append (take o buf) (take (length buf - o) bytes ++ drop (o + length bytes) buf),
    length-append (take (length buf - o) bytes) (drop (o + length bytes) buf),
    length-take o buf,
    length-take (length buf - o) bytes,
    length-drop (o + length bytes) buf,
  )

  length-front : length (take o buf) ≡ o
  length-front = omega (arith, length-take o buf)

  length-copied : length (take (length buf - o) bytes) ≡ length bytes
  length-copied = omega (arith, length-take (length buf - o) bytes)

  copied : take (length buf - o) bytes ≡ bytes
  copied = take-all (length buf - o) bytes (omega arith)

  get_or-copy_at_in :
      (j : ℕ)
      → o ≤ j
      → j < o + length bytes
      → get_or (copy_at buf o bytes) j 0 ≡ get_or bytes (j - o) 0
  unfolding copy_at
  get_or-copy_at_in j lo hi =
      get_or-append_right (take o buf) _ j (j - o) (omega (arith, length-front))
      ∙ get_or-append_left (take (length buf - o) bytes) _ (j - o) (omega (arith, length-copied))
      ∙ ap (λ (l : List ℕ). get_or l (j - o) 0) copied

  get_or-copy_at_before : (j : ℕ) → j < o → get_or (copy_at buf o bytes) j 0 ≡ get_or buf j 0
  unfolding copy_at
  get_or-copy_at_before j h =
      get_or-append_left (take o buf) _ j (omega (arith, length-front)) ∙ get_or-take o buf j h

  get_or-copy_at_after :
      (j : ℕ) → o + length bytes ≤ j → get_or (copy_at buf o bytes) j 0 ≡ get_or buf j 0
  unfolding copy_at
  get_or-copy_at_after j h =
      get_or-append_right (take o buf) _ j (j - o) (omega (arith, length-front))
      ∙ get_or-append_right (take (length buf - o) bytes) _ (j - o) (j - o - length bytes)
          (omega (arith, length-copied))
      ∙ get_or-drop (o + length bytes) buf (j - o - length bytes)
      ∙ ap (λ (t : ℕ). get_or buf t 0) {y = j} (omega arith)

module _ (body : List ℕ) where
  -- A byte is right after a copy if the copied piece holds it or it was right before.
  copy_at-agrees :
      (buf : List ℕ) (q : Piece) (j : ℕ)
      → length buf ≡ length body
      → IsPiece body q
      → InPiece q j ⊎ (get_or buf j 0 ≡ get_or body j 0)
      → get_or (copy_at buf q.0 q.1) j 0 ≡ get_or body j 0
  copy_at-agrees buf q j same piece here = elim (dec_lt j q.0) [
    | yes before ↦
        get_or-copy_at_before buf q.0 q.1 (omega arith) j before ∙ outside here (λ p. omega arith)
    | no not_before ↦ elim (dec_lt j (q.0 + length q.1)) [
      | yes within ↦
          get_or-copy_at_in buf q.0 q.1 (omega arith) j (omega arith) within
          ∙ piece.2 (j - q.0) (omega arith)
          ∙ ap (λ (t : ℕ). get_or body t 0) {y = j} (omega arith)
      | no after ↦
          get_or-copy_at_after buf q.0 q.1 (omega arith) j (omega arith)
          ∙ outside here (λ p. omega arith)
    ]
  ]
    where
      outside :
          InPiece q j ⊎ (get_or buf j 0 ≡ get_or body j 0)
          → ¬ (InPiece q j)
          → get_or buf j 0 ≡ get_or body j 0
      outside (inl p) no_piece = absurd (no_piece p)
      outside (inr e) no_piece = e

  length-paste :
      (qs : List Piece) (buf : List ℕ)
      → length buf ≡ length body
      → All (IsPiece body) qs
      → length (paste buf qs) ≡ length body
  unfolding paste
  length-paste [] buf same pieces = same
  length-paste (q ∷ qs) buf same pieces =
      length-paste qs (copy_at buf q.0 q.1)
        (length-copy_at buf q.0 q.1 (omega (arith, pieces.0.1)) ∙ same) pieces.1

  paste-agrees :
      (qs : List Piece) (buf : List ℕ) (j : ℕ)
      → length buf ≡ length body
      → All (IsPiece body) qs
      → Covered qs j ⊎ (get_or buf j 0 ≡ get_or body j 0)
      → get_or (paste buf qs) j 0 ≡ get_or body j 0
  unfolding paste
  paste-agrees [] buf j same pieces (inl none_left) = absurd none_left
  paste-agrees [] buf j same pieces (inr e) = e
  paste-agrees (q ∷ qs) buf j same pieces here =
      paste-agrees qs (copy_at buf q.0 q.1) j
        (length-copy_at buf q.0 q.1 (omega (arith, pieces.0.1)) ∙ same) pieces.1 (sort here)
    where
      sort :
          Covered (q ∷ qs) j ⊎ (get_or buf j 0 ≡ get_or body j 0)
          → Covered qs j ⊎ (get_or (copy_at buf q.0 q.1) j 0 ≡ get_or body j 0)
      sort (inl (inl p)) = inr (copy_at-agrees buf q j same pieces.0 (inl p))
      sort (inl (inr c)) = inl c
      sort (inr e) = inr (copy_at-agrees buf q j same pieces.0 (inr e))

  -- Pieces that cover the body, pasted into any buffer of its length, make the body.
  pub paste-Covered :
      (qs : List Piece) (buf : List ℕ)
      → length buf ≡ length body
      → All (IsPiece body) qs
      → ((j : ℕ) → j < length body → Covered qs j)
      → paste buf qs ≡ body
  paste-Covered qs buf same pieces covered =
      get_or_ext (paste buf qs) body (length-paste qs buf same pieces) (λ j h.
        paste-agrees qs buf j same pieces
          (inl (covered j (omega (arith, length-paste qs buf same pieces)))))
