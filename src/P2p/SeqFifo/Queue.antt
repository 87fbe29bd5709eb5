-- ===== src/P2p/SeqFifo/Queue.antt =====
-- The queue holds the latest numbers, in order.
use wire_gold.Common.{
  lt→ltb, le→ltb, length, take, drop, length-append, length-drop, drop-drop, ℕ, zero, suc, ◌+◌, ◌-◌,
  ◌≤◌, ◌<◌, ◌≡◌, refl, sym, ap, ◌∙◌, List, [], ◌∷◌, ◌++◌, append_assoc, append-nil, arith, dec_lt,
}
use wire_gold.P2p.SeqFifo.{SeqFifo, capacity, get, put}

abbrev pub put_all : SeqFifo → List ℕ → SeqFifo
put_all f [] = f
put_all f (v ∷ vs) = put_all (put f v) vs

abbrev pub get_all : ℕ → SeqFifo → List ℕ
get_all zero f = []
get_all (suc n) f = (get f).0 ∷ get_all n (get f).1

abbrev pub new_seq_fifo : ℕ → SeqFifo
new_seq_fifo next = record { q = []; next = next }

-- The last 128 of a list.
abbrev pub latest : List ℕ → List ℕ
latest vs = drop (length vs - capacity) vs

drop_front : (k : ℕ) (xs ys : List ℕ) → k ≤ length xs → drop k (xs ++ ys) ≡ drop k xs ++ ys
drop_front zero xs ys h = refl
drop_front (suc k) [] ys h = absurd (omega arith)
drop_front (suc k) (x ∷ xs) ys h = drop_front k xs ys (omega arith)

drop_by : (j k : ℕ) (xs : List ℕ) → j ≡ k → drop j xs ≡ drop k xs
drop_by j k xs e = ap (λ (n : ℕ). drop n xs) e

put-room : (f : SeqFifo) (v : ℕ) → length f.q < 128 → (put f v).q ≡ f.q ++ (v ∷ [])
unfolding put
put-room f v h = rw (lt→ltb (length f.q) 128 h) refl

put-full : (f : SeqFifo) (v : ℕ) → 128 ≤ length f.q → (put f v).q ≡ drop 1 f.q ++ (v ∷ [])
unfolding put
put-full f v h = rw (le→ltb (length f.q) 128 h) refl

put-latest :
    (vs : List ℕ) (v : ℕ) (f : SeqFifo) → f.q ≡ latest vs → (put f v).q ≡ latest (vs ++ (v ∷ []))
put-latest vs v f e =
    let size : length f.q ≡ length vs - (length vs - 128) =
      ap length e ∙ length-drop (length vs - 128) vs in
    let more : length (vs ++ (v ∷ [])) ≡ length vs + 1 = length-append vs (v ∷ []) in
    elim (dec_lt (length vs) 128) [
      | yes room ↦
          put-room f v (omega arith)
          ∙ ap (λ (l : List ℕ). l ++ (v ∷ [])) (e ∙ drop_by (length vs - 128) 0 vs (omega arith))
          ∙ drop_by 0 (length (vs ++ (v ∷ [])) - 128) (vs ++ (v ∷ [])) (omega arith)
      | no full ↦
          put-full f v (omega arith)
          ∙ ap (λ (l : List ℕ). drop 1 l ++ (v ∷ [])) e
          ∙ ap (λ (l : List ℕ). l ++ (v ∷ []))
              (drop-drop (length vs - 128) 1 vs
                ∙ drop_by (length vs - 128 + 1) (length (vs ++ (v ∷ [])) - 128) vs (omega arith))
          ∙ sym (drop_front (length (vs ++ (v ∷ [])) - 128) vs (v ∷ []) (omega arith))
    ]

put_all-from :
    (seen vs : List ℕ) (f : SeqFifo) → f.q ≡ latest seen → (put_all f vs).q ≡ latest (seen ++ vs)
put_all-from seen [] f e = e ∙ ap latest (sym (append-nil seen))
put_all-from seen (v ∷ vs) f e =
    put_all-from (seen ++ (v ∷ [])) vs (put f v) (put-latest seen v f e)
    ∙ ap latest (append_assoc seen (v ∷ []) vs)

-- However many numbers are put, the queue holds the last 128 of them, oldest first.
pub put_all-latest : (vs : List ℕ) (next : ℕ) → (put_all (new_seq_fifo next) vs).q ≡ latest vs
put_all-latest vs next = put_all-from [] vs (new_seq_fifo next) refl

pub get_all-take :
    (n next : ℕ) (q : List ℕ) → n ≤ length q → get_all n (record { q = q; next = next }) ≡ take n q
unfolding get
get_all-take zero next q h = refl
get_all-take (suc n) next [] h = absurd (omega arith)
get_all-take (suc n) next (v ∷ rest) h =
    ap (λ (l : List ℕ). v ∷ l) (get_all-take n next rest (omega arith))

-- Up to 128 numbers stay in the queue.
pub put_all-held :
    (vs : List ℕ) (next : ℕ) → length vs ≤ 128 → (put_all (new_seq_fifo next) vs).q ≡ vs
put_all-held vs next h = put_all-latest vs next ∙ drop_by (length vs - 128) 0 vs (omega arith)

-- What a put makes of the queue depends on the queue alone.
pub put-q : (f g : SeqFifo) (v : ℕ) → f.q ≡ g.q → (put f v).q ≡ (put g v).q
put-q f g v e = elim (dec_lt (length f.q) 128) [
  | yes room ↦
      put-room f v room
      ∙ ap (λ (l : List ℕ). l ++ (v ∷ [])) e
      ∙ sym (put-room g v (omega (arith, ap length e)))
  | no full ↦
      put-full f v (omega arith)
      ∙ ap (λ (l : List ℕ). drop 1 l ++ (v ∷ [])) e
      ∙ sym (put-full g v (omega (arith, ap length e)))
]

pub put_all-q : (vs : List ℕ) (f g : SeqFifo) → f.q ≡ g.q → (put_all f vs).q ≡ (put_all g vs).q
put_all-q [] f g e = e
put_all-q (v ∷ vs) f g e = put_all-q vs (put f v) (put g v) (put-q f g v e)
