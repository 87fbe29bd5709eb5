-- ===== src/Link/Listen/Slots.antt =====
-- gold/link/listen.go: which buffers of the listener are in use.
use wire_gold.Common.{
  ◌==◌, if◌then◌else◌, get_elem?, set, All, All-weaken, ℕ, zero, suc, ◌≡◌, refl, sym, ap, ◌∙◌, ◌≢◌,
  Bool, true, false, Option, none, some, List, [], ◌∷◌, arith,
}
use mathlib.Core.Path.{subst}
use wire_gold.Link.Listen.{
  Listener, Job, Received, behind, claim, turn_with, listen_turn, quit, broken, got,
}

-- The buffers that the running jobs read.
abbrev pub with_slot : Option ℕ → List ℕ → List ℕ
with_slot none rest = rest
with_slot (some i) rest = i ∷ rest

abbrev pub slots : List Job → List ℕ
slots [] = []
slots (j ∷ jobs) = with_slot j.slot (slots jobs)

abbrev pub Apart : ℕ → ℕ → Type 0
Apart i j = j ≢ i

abbrev pub AreDistinct : List ℕ → Type 0
AreDistinct [] = Unit
AreDistinct (i ∷ rest) = All (Apart i) rest × AreDistinct rest

abbrev pub IsTaken : List Bool → ℕ → Type 0
IsTaken fils i = get_elem? fils i ≡ some true

-- No buffer is read by two jobs, and those that jobs read are taken.
pub record IsExclusive (l : Listener) : Type 0 where
  pub distinct : AreDistinct (slots l.jobs)
  pub taken : All (IsTaken l.fils) (slots l.jobs)

-- A buffer that is taken, but that no job reads.
pub record IsLost (i : ℕ) (l : Listener) : Type 0 where
  pub taken : IsTaken l.fils i
  pub unread : All (Apart i) (slots l.jobs)

pub get_elem?-set :
    (fils : List Bool) (i : ℕ) (b c : Bool)
    → get_elem? fils i ≡ some c
    → get_elem? (set fils i b) i ≡ some b
get_elem?-set [] i b c h = absurd (cc)
get_elem?-set (x ∷ fils) zero b c h = refl
get_elem?-set (x ∷ fils) (suc i) b c h = get_elem?-set fils i b c h

pub get_elem?-set_other :
    (fils : List Bool) (i j : ℕ) (b : Bool) → j ≢ i → get_elem? (set fils i b) j ≡ get_elem? fils j
get_elem?-set_other [] i j b apart = refl
get_elem?-set_other (x ∷ fils) zero zero b apart = absurd (apart refl)
get_elem?-set_other (x ∷ fils) zero (suc j) b apart = refl
get_elem?-set_other (x ∷ fils) (suc i) zero b apart = refl
get_elem?-set_other (x ∷ fils) (suc i) (suc j) b apart =
    get_elem?-set_other fils i j b (λ (e : j ≡ i). apart (ap suc e))

-- What a claim has done: nothing where all are taken, and else a free buffer is taken.
abbrev pub Claimed : List Bool → Option ℕ × List Bool → Type 0
Claimed fils (none, after) = after ≡ fils
Claimed fils (some i, after) = (get_elem? fils i ≡ some false) × (after ≡ set fils i true)

pub claim-Claimed : (fils : List Bool) → Claimed fils (claim fils)
claim-Claimed [] = refl
claim-Claimed (false ∷ fils) = (refl, refl)
claim-Claimed (true ∷ fils) = shift (claim fils) (claim-Claimed fils)
  where
    shift : (r : Option ℕ × List Bool) → Claimed fils r → Claimed (true ∷ fils) (behind r)
    shift (none, after) h = ap (λ (l : List Bool). true ∷ l) h
    shift (some i, after) h = (h.0, ap (λ (l : List Bool). true ∷ l) h.1)

pub taken-Apart :
    (fils : List Bool) (i : ℕ) (js : List ℕ)
    → get_elem? fils i ≡ some false
    → All (IsTaken fils) js
    → All (Apart i) js
taken-Apart fils i js free =
    All-weaken (IsTaken fils) (Apart i) js (λ (j : ℕ) (held : IsTaken fils j) (same : j ≡ i).
      let both : some true ≡ some false = sym held ∙ ap (get_elem? fils) same ∙ free in absurd (cc))

-- Setting another buffer.
pub keep_taken :
    (fils : List Bool) (i : ℕ) (b : Bool) (js : List ℕ)
    → All (Apart i) js
    → All (IsTaken fils) js
    → All (IsTaken (set fils i b)) js
keep_taken fils i b [] apart held = tt
keep_taken fils i b (j ∷ js) apart held =
    (get_elem?-set_other fils i j b apart.0 ∙ held.0, keep_taken fils i b js apart.1 held.1)

-- A claim takes nothing from those that hold a buffer.
Claimed-keep :
    (fils : List Bool) (slot : Option ℕ) (after : List Bool) (js : List ℕ)
    → Claimed fils (slot, after)
    → All (IsTaken fils) js
    → All (IsTaken after) js
Claimed-keep fils none after js h held = subst (λ (l : List Bool). All (IsTaken l) js) (sym h) held
Claimed-keep fils (some i) after js h held =
    subst (λ (l : List Bool). All (IsTaken l) js) (sym h.1)
      (keep_taken fils i true js (taken-Apart fils i js h.0 held) held)

-- The new job's buffer is its own.
Claimed-add :
    (slot : Option ℕ) (after : List Bool) (l : Listener)
    → Claimed l.fils (slot, after)
    → IsExclusive l
    → AreDistinct (with_slot slot (slots l.jobs))
      × All (IsTaken after) (with_slot slot (slots l.jobs))
Claimed-add none after l h own =
    (own.distinct, Claimed-keep l.fils none after (slots l.jobs) h own.taken)
Claimed-add (some i) after l h own =
    let marked : IsTaken after i =
      subst (λ (f : List Bool). IsTaken f i) (sym h.1) (get_elem?-set l.fils i true false h.0) in
    (
      (taken-Apart l.fils i (slots l.jobs) h.0 own.taken, own.distinct),
      (marked, Claimed-keep l.fils (some i) after (slots l.jobs) h own.taken),
    )

turn_with-IsExclusive :
    (r : Received) (l : Listener) (slot : Option ℕ) (after : List Bool)
    → Claimed l.fils (slot, after)
    → IsExclusive l
    → IsExclusive (turn_with r (slot, after) l)
turn_with-IsExclusive quit l slot after h own = record {
  distinct = own.distinct;
  taken = Claimed-keep l.fils slot after (slots l.jobs) h own.taken;
}
turn_with-IsExclusive (broken again) l slot after h own = record {
  distinct = own.distinct;
  taken = Claimed-keep l.fils slot after (slots l.jobs) h own.taken;
}
turn_with-IsExclusive (got zero) l slot after h own = record {
  distinct = own.distinct;
  taken = Claimed-keep l.fils slot after (slots l.jobs) h own.taken;
}
turn_with-IsExclusive (got (suc n)) l slot after h own =
    let nonzero : (suc n == 0) ≡ false = ground arith in
    let both = Claimed-add slot after l h own in
    subst
      (λ (t : Bool). IsExclusive (
        if t
        then record l { fils = after }
        else record l { fils = after; jobs = (record { slot = slot; n = suc n }) ∷ l.jobs }))
      (sym nonzero) (record { distinct = both.0; taken = both.1 })

pub listen_turn-IsExclusive :
    (r : Received) (l : Listener) → IsExclusive l → IsExclusive (listen_turn r l)
unfolding listen_turn
listen_turn-IsExclusive r l own =
    elim l.listening
      as (λ (t : Bool). IsExclusive (if t then turn_with r (claim l.fils) l else l)) [
        | true ↦
            turn_with-IsExclusive r l (claim l.fils).0 (claim l.fils).1 (claim-Claimed l.fils) own
        | false ↦ own
      ]
