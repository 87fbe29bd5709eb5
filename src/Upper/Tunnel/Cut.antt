-- ===== src/Upper/Tunnel/Cut.antt =====
-- handleWrite cuts the blocks and numbers the packets.
use mathlib.Core.Path.{subst}
use wire_gold.Common.{
  ltb, if◌then◌else◌, lt→ltb, le→ltb, length, take, drop, All, length-append, length-take,
  length-drop, take-append-drop, drop-append, All-append, put_uint, get_uint, length-put_uint,
  get_uint-put_uint, ℕ, zero, suc, ◌+◌, ◌-◌, ◌≤◌, ◌<◌, ◌≡◌, refl, sym, ap, ap₂, ◌∙◌, Option, none,
  some, List, [], ◌∷◌, ◌++◌, append_assoc, append-nil, arith, dec_lt,
}
use wire_gold.Upper.Tunnel.{uint32, put_first, put_before, frames, handle_write}

-- The bytes of a stream of packets, after the four of the number.
abbrev pub payloads : List (List ℕ) → List ℕ
payloads [] = []
payloads (f ∷ fs) = drop 4 f ++ payloads fs

-- The packets carry consecutive numbers, up to the number that comes next.
abbrev pub IsNumbered : ℕ → List (List ℕ) → ℕ → Type 0
IsNumbered seq [] next = seq ≡ next
IsNumbered seq (f ∷ fs) next = (get_uint 4 f ≡ seq) × IsNumbered (uint32 (seq + 1)) fs next

-- The packets of a stream: its bytes, none over the mtu, each with its number.
abbrev pub IsStream : ℕ → ℕ → List ℕ → List (List ℕ) → ℕ → Type 0
IsStream mtu seq bytes packets next =
    (payloads packets ≡ bytes)
    × All (λ f. (4 ≤ length f) × (length f ≤ mtu)) packets
    × IsNumbered seq packets next

payloads-append : (fs gs : List (List ℕ)) → payloads (fs ++ gs) ≡ payloads fs ++ payloads gs
payloads-append [] gs = refl
payloads-append (f ∷ fs) gs =
    ap (λ l. drop 4 f ++ l) (payloads-append fs gs)
    ∙ sym (append_assoc (drop 4 f) (payloads fs) (payloads gs))

IsNumbered-append :
    (seq middle next : ℕ) (fs gs : List (List ℕ))
    → IsNumbered seq fs middle
    → IsNumbered middle gs next
    → IsNumbered seq (fs ++ gs) next
IsNumbered-append seq middle next [] gs h k = subst (λ (s : ℕ). IsNumbered s gs next) (sym h) k
IsNumbered-append seq middle next (f ∷ fs) gs h k =
    (h.0, IsNumbered-append (uint32 (seq + 1)) middle next fs gs h.1 k)

header_number : (seq : ℕ) (b : List ℕ) → seq < 4294967296 → get_uint 4 (put_uint 4 seq ++ b) ≡ seq
header_number seq b h = get_uint-put_uint 4 seq b (omega arith)

header_size : (seq : ℕ) (b : List ℕ) → length (put_uint 4 seq ++ b) ≡ 4 + length b
header_size seq b = omega (arith, length-append (put_uint 4 seq) b, length-put_uint 4 seq)

header_body : (seq : ℕ) (b : List ℕ) → drop 4 (put_uint 4 seq ++ b) ≡ b
header_body seq b = drop-append 4 (put_uint 4 seq) b (length-put_uint 4 seq)

frames-last :
    (mtu fuel seq : ℕ) (b : List ℕ)
    → length b + 4 ≤ mtu
    → frames mtu (suc fuel) seq b ≡ some ((put_uint 4 seq ++ b) ∷ [], uint32 (seq + 1))
unfolding frames
frames-last mtu fuel seq b h = rw (le→ltb mtu (length b + 4) h) refl

frames-more :
    (mtu fuel seq : ℕ) (b : List ℕ)
    → mtu < length b + 4
    → frames mtu (suc fuel) seq b
      ≡ put_first
          (put_uint 4 seq ++ take (mtu - 4) b)
          (frames mtu fuel (uint32 (seq + 1)) (drop (mtu - 4) b))
unfolding frames
frames-more mtu fuel seq b h = rw (lt→ltb mtu (length b + 4) h) refl

frames-IsStream :
    (mtu fuel seq : ℕ) (b : List ℕ)
    → 4 < mtu
    → seq < 4294967296
    → length b < fuel
    → (packets : List (List ℕ)) × (next : ℕ) × (frames mtu fuel seq b ≡ some (packets, next))
      × (next < 4294967296)
      × IsStream mtu seq b packets next
frames-IsStream mtu zero seq b roomy fits enough = absurd (omega arith)
frames-IsStream mtu (suc fuel) seq b roomy fits enough = elim (dec_lt mtu (length b + 4)) [
  | no short ↦
      let size = header_size seq b in
      (
        (put_uint 4 seq ++ b) ∷ [],
        uint32 (seq + 1),
        frames-last mtu fuel seq b (omega arith),
        omega arith,
        (
          append-nil (drop 4 (put_uint 4 seq ++ b)) ∙ header_body seq b,
          ((omega (arith, size), omega (arith, size)), tt),
          (header_number seq b fits, refl),
        ),
      )
  | yes long ↦
      let later =
        frames-IsStream mtu fuel (uint32 (seq + 1)) (drop (mtu - 4) b) roomy (omega arith)
          (omega (arith, length-drop (mtu - 4) b)) in
      let size = header_size seq (take (mtu - 4) b) in
      (
        (put_uint 4 seq ++ take (mtu - 4) b) ∷ later.0,
        later.1,
        frames-more mtu fuel seq b long
            ∙ ap (put_first (put_uint 4 seq ++ take (mtu - 4) b)) later.2,
        later.3,
        (
          ap₂ (λ (x y : List ℕ). x ++ y) (header_body seq (take (mtu - 4) b)) later.4.0
              ∙ take-append-drop (mtu - 4) b,
          ((omega (arith, size), omega (arith, size, length-take (mtu - 4) b)), later.4.1),
          (header_number seq (take (mtu - 4) b) fits, later.4.2),
        ),
      )
]

abbrev pub concat : List (List ℕ) → List ℕ
concat [] = []
concat (b ∷ bs) = b ++ concat bs

abbrev pub blocks_of : List (List ℕ) → List (Option (List ℕ))
blocks_of [] = []
blocks_of (b ∷ bs) = some b ∷ blocks_of bs

handle_write-step :
    (mtu seq : ℕ) (b : List ℕ) (bs : List (Option (List ℕ))) (packets : List (List ℕ)) (next : ℕ)
    → 4 < mtu
    → frames mtu (length b + 1) seq b ≡ some (packets, next)
    → handle_write mtu seq (some b ∷ bs) ≡ put_before packets (handle_write mtu next bs)
unfolding handle_write
handle_write-step mtu seq b bs packets next roomy e =
    ap
      (λ r. elim r [
        | none ↦ none
        | some (packets, next) ↦
            if ltb mtu 4 then none else put_before packets (handle_write mtu next bs)
      ])
      e
    ∙ small
  where
    small :
        (if ltb mtu 4 then none else put_before packets (handle_write mtu next bs))
        ≡ put_before packets (handle_write mtu next bs)
    small = rw (le→ltb mtu 4 (omega arith)) refl

-- With an mtu over 4 and a first number below 2^32, handleWrite sends every block, none being nil:
-- the contents of the packets are the bytes of the blocks in order, each packet has its four bytes
-- of number and at most mtu bytes, and the numbers are consecutive modulo 2^32.
pub handle_write-IsStream :
    (mtu seq : ℕ) (bs : List (List ℕ))
    → 4 < mtu
    → seq < 4294967296
    → (packets : List (List ℕ)) × (next : ℕ) × (handle_write mtu seq (blocks_of bs) ≡ some packets)
      × IsStream mtu seq (concat bs) packets next
unfolding handle_write
handle_write-IsStream mtu seq [] roomy fits = ([], seq, refl, (refl, tt, refl))
handle_write-IsStream mtu seq (b ∷ bs) roomy fits =
    let one = frames-IsStream mtu (length b + 1) seq b roomy fits (omega arith) in
    let more = handle_write-IsStream mtu one.1 bs roomy one.3 in
    (
      one.0 ++ more.0,
      more.1,
      handle_write-step mtu seq b (blocks_of bs) one.0 one.1 roomy one.2
          ∙ ap (put_before one.0) more.2,
      (
        payloads-append one.0 more.0 ∙ ap₂ (λ (x y : List ℕ). x ++ y) one.4.0 more.3.0,
        All-append (λ f. (4 ≤ length f) × (length f ≤ mtu)) one.0 more.0 one.4.1 more.3.1,
        IsNumbered-append seq one.1 more.1 one.0 more.0 one.4.2 more.3.2,
      ),
    )
