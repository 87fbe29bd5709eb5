-- ===== src/Upper/Tunnel/Sort.antt =====
-- handleRead hands the packets on in the order of their numbers.
use mathlib.Core.Path.{subst}
use wire_gold.Common.{
  ◌==◌, le→ltb, ==_iff, Bool-cases, Option-cases, length, get_elem?, take, Some, All, take-all, ℕ,
  zero, suc, ◌+◌, ◌≤◌, ◌<◌, ◌≡◌, refl, sym, ap, ap₂, ◌∙◌, ◌⊎◌, inl, inr, true, false, none, some,
  List, [], ◌∷◌, ◌++◌, arith, dec_lt,
}
use wire_gold.Upper.Tunnel.{
  LinkData, Reader, uint32, new_reader, lookup, delete, emit, drain, recvseq, receive, handle_read,
}

pub lookup-here :
    (k j : ℕ) (q : LinkData) (rest : List (ℕ × LinkData))
    → k == j ≡ true
    → lookup k ((j, q) ∷ rest) ≡ some q
unfolding lookup
lookup-here k j q rest e = rw e refl

pub lookup-behind :
    (k j : ℕ) (q : LinkData) (rest : List (ℕ × LinkData))
    → k == j ≡ false
    → lookup k ((j, q) ∷ rest) ≡ lookup k rest
unfolding lookup
lookup-behind k j q rest e = rw e refl

lookup-All :
    (P : (ℕ × LinkData) → Type 0) (k : ℕ) (map : List (ℕ × LinkData)) (p : LinkData)
    → All P map
    → lookup k map ≡ some p
    → P (k, p)
unfolding lookup
lookup-All P k [] p h e = cc
lookup-All P k ((j, q) ∷ rest) p h e = elim (Bool-cases (k == j)) [
  | inr other ↦ lookup-All P k rest p h.1 (sym (lookup-behind k j q rest other) ∙ e)
  | inl same ↦
      let whole : some q ≡ some p = sym (lookup-here k j q rest same) ∙ e in
      let found : q ≡ p = cc in
      let number : j ≡ k = sym ((==_iff k j).0 same) in
      subst P (ap₂ (λ (a : ℕ) (b : LinkData). (a, b)) number found) h.0
]

delete-All :
    (P : (ℕ × LinkData) → Type 0) (k : ℕ) (map : List (ℕ × LinkData))
    → All P map
    → All P (delete k map)
unfolding delete
delete-All P k [] h = tt
delete-All P k ((j, q) ∷ rest) h = elim (Bool-cases (k == j)) [
  | inl same ↦ rw same (delete-All P k rest h.1)
  | inr other ↦ rw other (h.0, delete-All P k rest h.1)
]

-- Removing one number leaves the others.
lookup-delete :
    (j k : ℕ) (map : List (ℕ × LinkData)) → j == k ≡ false → lookup j (delete k map) ≡ lookup j map
unfolding delete
lookup-delete j k [] ne = refl
lookup-delete j k ((i, q) ∷ rest) ne = elim (Bool-cases (k == i)) [
  | inl same ↦
      let apart : j == i ≡ false = subst (λ (x : ℕ). j == x ≡ false) ((==_iff k i).0 same) ne in
      rw same (lookup-delete j k rest ne ∙ sym (lookup-behind j i q rest apart))
  | inr other ↦ rw other (elim (Bool-cases (j == i)) [
    | inl found ↦ lookup-here j i q (delete k rest) found ∙ sym (lookup-here j i q rest found)
    | inr behind ↦
        lookup-behind j i q (delete k rest) behind
        ∙ lookup-delete j k rest ne
        ∙ sym (lookup-behind j i q rest behind)
  ])
]

length-delete : (k : ℕ) (map : List (ℕ × LinkData)) → length (delete k map) ≤ length map
unfolding delete
length-delete k [] = omega arith
length-delete k ((j, q) ∷ rest) = elim (Bool-cases (k == j)) [
  | inl same ↦ rw same (omega (arith, length-delete k rest))
  | inr other ↦ rw other (omega (arith, length-delete k rest))
]

delete-shorter :
    (k : ℕ) (map : List (ℕ × LinkData)) (p : LinkData)
    → lookup k map ≡ some p
    → length (delete k map) < length map
unfolding lookup delete
delete-shorter k [] p e = cc
delete-shorter k ((j, q) ∷ rest) p e = elim (Bool-cases (k == j)) [
  | inl same ↦ rw same (omega (arith, length-delete k rest))
  | inr other ↦
      rw other (omega (arith, delete-shorter k rest p (sym (lookup-behind k j q rest other) ∙ e)))
]

take-suc :
    (xs : List LinkData) (k : ℕ) (x : LinkData)
    → get_elem? xs k ≡ some x
    → (take (suc k) xs ≡ take k xs ++ (x ∷ [])) × (k < length xs)
take-suc [] k x e = cc
take-suc (y ∷ ys) zero x e = let same : y ≡ x = cc in (ap (λ z. z ∷ []) same, omega arith)
take-suc (y ∷ ys) (suc k) x e =
    let rest = take-suc ys k x e in (ap (λ l. y ∷ l) rest.0, omega (arith, rest.1))

-- The packets that have arrived, among those that were sent.
abbrev pub HasArrived : ℕ → List LinkData → Type 0
HasArrived k arrived = Some (λ p. recvseq p ≡ k) arrived

abbrev IsKept : ℕ → List (ℕ × LinkData) → Type 0
IsKept k map = (p : LinkData) × (lookup k map ≡ some p)

-- What holds between two rounds: the packets up to the awaited number were handed on, the map holds
-- sent packets under their numbers, and every packet that has arrived was handed on or is kept.
abbrev IsSorting : List LinkData → List LinkData → Reader → Type 0
IsSorting sent arrived r =
    (r.out ≡ take r.seq sent)
    × All (λ e. get_elem? sent e.0 ≡ some e.1) r.seqmap
    × ((k : ℕ) → HasArrived k arrived → (k < r.seq) ⊎ IsKept k r.seqmap)

emit-IsSorting :
    (sent arrived : List LinkData) (r : Reader) (p : LinkData) (map : List (ℕ × LinkData))
    → length sent < 4294967296
    → r.out ≡ take r.seq sent
    → get_elem? sent r.seq ≡ some p
    → All (λ e. get_elem? sent e.0 ≡ some e.1) map
    → ((k : ℕ) → HasArrived k arrived → (k ≡ r.seq) ⊎ ((k < r.seq) ⊎ IsKept k map))
    → IsSorting sent arrived (emit (record r { seqmap = map }) p)
emit-IsSorting sent arrived r p map bound out here entries seen =
    let step = take-suc sent r.seq p here in
    let next : uint32 (r.seq + 1) ≡ suc r.seq = omega (arith, step.1) in
    (
      ap (λ l. l ++ (p ∷ [])) out ∙ sym step.0 ∙ ap (λ (k : ℕ). take k sent) (sym next),
      entries,
      λ k arrival. elim (seen k arrival) [
        | inl same ↦ inl (omega (arith, next))
        | inr (inl before) ↦ inl (omega (arith, next))
        | inr (inr kept) ↦ inr kept
      ],
    )

-- After the rounds the awaited packet is not in the map.
abbrev IsSettled : List LinkData → List LinkData → Reader → Type 0
IsSettled sent arrived r = IsSorting sent arrived r × (lookup r.seq r.seqmap ≡ none)

lookup-nil : (k : ℕ) (map : List (ℕ × LinkData)) → length map ≤ 0 → lookup k map ≡ none
unfolding lookup
lookup-nil k [] h = refl
lookup-nil k (e ∷ rest) h = absurd (omega arith)

drain-stop : (fuel : ℕ) (r : Reader) → lookup r.seq r.seqmap ≡ none → drain (suc fuel) r ≡ r
unfolding drain
drain-stop fuel r e =
    ap
      (λ o. elim o [
        | none ↦ r
        | some p ↦ drain fuel (emit (record r { seqmap = delete r.seq r.seqmap }) p)
      ])
      e

drain-more :
    (fuel : ℕ) (r : Reader) (p : LinkData)
    → lookup r.seq r.seqmap ≡ some p
    → drain (suc fuel) r ≡ drain fuel (emit (record r { seqmap = delete r.seq r.seqmap }) p)
unfolding drain
drain-more fuel r p e =
    ap
      (λ o. elim o [
        | none ↦ r
        | some q ↦ drain fuel (emit (record r { seqmap = delete r.seq r.seqmap }) q)
      ])
      e

-- One round keeps the packets that wait.
IsKept-round :
    (k : ℕ) (r : Reader)
    → (k < r.seq) ⊎ IsKept k r.seqmap
    → (k ≡ r.seq) ⊎ ((k < r.seq) ⊎ IsKept k (delete r.seq r.seqmap))
IsKept-round k r (inl before) = inr (inl before)
IsKept-round k r (inr kept) = elim (Bool-cases (k == r.seq)) [
  | inl same ↦ inl ((==_iff k r.seq).0 same)
  | inr other ↦ inr (inr (kept.0, lookup-delete k r.seq r.seqmap other ∙ kept.1))
]

drain-IsSettled :
    (fuel : ℕ) (sent arrived : List LinkData) (r : Reader)
    → length sent < 4294967296
    → length r.seqmap ≤ fuel
    → IsSorting sent arrived r
    → IsSettled sent arrived (drain fuel r)
unfolding drain
drain-IsSettled zero sent arrived r bound enough h = (h, lookup-nil r.seq r.seqmap enough)
drain-IsSettled (suc fuel) sent arrived r bound enough h =
    elim (Option-cases (lookup r.seq r.seqmap)) [
      | inl missing ↦ subst (IsSettled sent arrived) (sym (drain-stop fuel r missing)) (h, missing)
      | inr (p, found) ↦ subst (IsSettled sent arrived) (sym (drain-more fuel r p found)) (
          drain-IsSettled fuel sent arrived (emit (record r { seqmap = delete r.seq r.seqmap }) p)
            bound (omega (arith, delete-shorter r.seq r.seqmap p found))
            (emit-IsSorting sent arrived r p (delete r.seq r.seqmap) bound h.0
              (lookup-All (λ e. get_elem? sent e.0 ≡ some e.1) r.seq r.seqmap p h.1 found)
              (delete-All (λ e. get_elem? sent e.0 ≡ some e.1) r.seq r.seqmap h.1)
              (λ k arrival. IsKept-round k r (h.2 k arrival))))
    ]

-- A packet that was sent and has at least its number.
abbrev pub IsSent : List LinkData → LinkData → Type 0
IsSent sent p = (get_elem? sent (recvseq p) ≡ some p) × (4 ≤ length p.bytes)

-- A packet put in the map is kept, and so are the others.
IsKept-insert :
    (arrived : List LinkData) (r : Reader) (p : LinkData)
    → ((k : ℕ) → HasArrived k arrived → (k < r.seq) ⊎ IsKept k r.seqmap)
    → (k : ℕ) → HasArrived k (p ∷ arrived)
    → (k < r.seq) ⊎ IsKept k ((recvseq p, p) ∷ delete (recvseq p) r.seqmap)
IsKept-insert arrived r p seen k (inl now) =
    inr (p, lookup-here k (recvseq p) p (delete (recvseq p) r.seqmap) ((==_iff _ _).1 (sym now)))
IsKept-insert arrived r p seen k (inr before) = elim (seen k before) [
  | inl lt ↦ inl lt
  | inr kept ↦ elim (Bool-cases (k == recvseq p)) [
    | inl same ↦ inr (p, lookup-here k (recvseq p) p (delete (recvseq p) r.seqmap) same)
    | inr other ↦ inr (
      kept.0,
      lookup-behind k (recvseq p) p (delete (recvseq p) r.seqmap) other
          ∙ lookup-delete k (recvseq p) r.seqmap other
          ∙ kept.1,
    )
  ]
]

receive-IsSettled :
    (sent arrived : List LinkData) (r : Reader) (p : LinkData)
    → length sent < 4294967296
    → IsSent sent p
    → IsSettled sent arrived r
    → IsSettled sent (p ∷ arrived) (receive r p)
unfolding receive
receive-IsSettled sent arrived r p bound is_sent h = elim (Bool-cases (recvseq p == r.seq)) [
  | inl same ↦
      let awaited : recvseq p ≡ r.seq = (==_iff (recvseq p) r.seq).0 same in
      rw same (
        drain-IsSettled (length r.seqmap) sent (p ∷ arrived) (emit r p) bound (omega arith) (
          emit-IsSorting sent (p ∷ arrived) r p r.seqmap bound h.0.0
            (subst (λ (k : ℕ). get_elem? sent k ≡ some p) awaited is_sent.0) h.0.1
            (λ k arrival. elim arrival [
              | inl now ↦ inl (sym now ∙ awaited)
              | inr before ↦ inr (h.0.2 k before)
            ])))
  | inr other ↦
      let map = (recvseq p, p) ∷ delete (recvseq p) r.seqmap in
      rw other (
        drain-IsSettled (length map) sent (p ∷ arrived) (record r { seqmap = map }) bound
          (omega arith)
          (
            h.0.0,
            (is_sent.0, delete-All (λ e. get_elem? sent e.0 ≡ some e.1) (recvseq p) r.seqmap h.0.1),
            IsKept-insert arrived r p h.0.2,
          ))
]

handle_read-receive :
    (r : Reader) (p : LinkData) (rest : List LinkData)
    → 4 ≤ length p.bytes
    → handle_read r (p ∷ rest) ≡ handle_read (receive r p) rest
unfolding handle_read
handle_read-receive r p rest h =
    let some_bytes : length p.bytes == 0 ≡ false = ground arith in
    rw (some_bytes, le→ltb (length p.bytes) 4 h) refl

abbrev reverse_append : List LinkData → List LinkData → List LinkData
reverse_append [] ys = ys
reverse_append (x ∷ xs) ys = reverse_append xs (x ∷ ys)

handle_read-IsSettled :
    (sent arrived incoming : List LinkData) (r : Reader)
    → length sent < 4294967296
    → All (IsSent sent) incoming
    → IsSettled sent arrived r
    → (final : Reader) × (handle_read r incoming ≡ some final)
      × IsSettled sent (reverse_append incoming arrived) final
unfolding handle_read
handle_read-IsSettled sent arrived [] r bound all_sent h = (r, refl, h)
handle_read-IsSettled sent arrived (p ∷ rest) r bound all_sent h =
    let later =
      handle_read-IsSettled sent (p ∷ arrived) rest (receive r p) bound all_sent.1
        (receive-IsSettled sent arrived r p bound all_sent.0 h) in
    (later.0, handle_read-receive r p rest all_sent.0.1 ∙ later.1, later.2)

Some-reverse :
    (P : LinkData → Type 0) (xs ys : List LinkData)
    → Some P xs ⊎ Some P ys
    → Some P (reverse_append xs ys)
Some-reverse P [] ys (inl h) = absurd h
Some-reverse P [] ys (inr h) = h
Some-reverse P (x ∷ xs) ys (inl (inl h)) = Some-reverse P xs (x ∷ ys) (inr (inl h))
Some-reverse P (x ∷ xs) ys (inl (inr h)) = Some-reverse P xs (x ∷ ys) (inl h)
Some-reverse P (x ∷ xs) ys (inr h) = Some-reverse P xs (x ∷ ys) (inr (inr h))

-- Settled, with every packet arrived, every packet was handed on.
settled_all :
    (sent arrived : List LinkData) (r : Reader)
    → ((k : ℕ) → k < length sent → HasArrived k arrived)
    → IsSettled sent arrived r
    → length sent ≤ r.seq
settled_all sent arrived r complete h = elim (dec_lt r.seq (length sent)) [
  | no all ↦ omega arith
  | yes lt ↦ elim (h.0.2 r.seq (complete r.seq lt)) [
    | inl below ↦ absurd (omega arith)
    | inr kept ↦ let clash : none ≡ some kept.0 = sym h.1 ∙ kept.1 in absurd cc
  ]
]

-- Packets of a stream of fewer than 2^32, each of at least four bytes and under the number of its
-- place, that arrive in any order and any number of times are handed on by handleRead once each
-- and in order, when each has arrived.
pub handle_read-in_order :
    (sent incoming : List LinkData)
    → length sent < 4294967296
    → All (IsSent sent) incoming
    → ((k : ℕ) → k < length sent → HasArrived k incoming)
    → (final : Reader) × (handle_read new_reader incoming ≡ some final) × (final.out ≡ sent)
handle_read-in_order sent incoming bound all_sent complete =
    let start : IsSettled sent [] new_reader =
      ((refl, tt, λ k arrival. absurd arrival), lookup-nil 0 [] (omega arith)) in
    let run = handle_read-IsSettled sent [] incoming new_reader bound all_sent start in
    let arrivals : (k : ℕ) → k < length sent → HasArrived k (reverse_append incoming []) =
      λ k lt. Some-reverse (λ p. recvseq p ≡ k) incoming [] (inl (complete k lt)) in
    (
      run.0,
      run.1,
      run.2.0.0
          ∙ take-all run.0.seq sent
              (settled_all sent (reverse_append incoming []) run.0 arrivals run.2),
    )
