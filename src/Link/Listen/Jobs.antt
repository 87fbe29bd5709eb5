-- ===== src/Link/Listen/Jobs.antt =====
-- gold/link/listen.go: the buffers when jobs end, and in every run.
use wire_gold.Common.{
  get_elem?, All, ℕ, zero, suc, ◌≡◌, refl, sym, ◌≢◌, Bool, false, Option, none, some, List, [], ◌∷◌,
}
use mathlib.Core.Path.{subst}
use wire_gold.Link.Listen.{
  Listener, Job, started, remove, give_back, count_received, end_job, Step, Steps, turns, ends,
  here, and_then,
}
use wire_gold.Link.Listen.Slots.{
  IsExclusive, with_slot, slots, Apart, AreDistinct, IsTaken, keep_taken, listen_turn-IsExclusive,
}

-- What is left when a job goes.
pub remove-All :
    (P : ℕ → Type 0) (k : ℕ) (jobs : List Job) → All P (slots jobs) → All P (slots (remove k jobs))
remove-All P k [] h = tt
remove-All P zero (j ∷ jobs) h = rest j.slot h
  where
    rest : (slot : Option ℕ) → All P (with_slot slot (slots jobs)) → All P (slots jobs)
    rest none h' = h'
    rest (some i) h' = h'.1
remove-All P (suc k) (j ∷ jobs) h = both j.slot (remove-All P k jobs) h
  where
    both :
        (slot : Option ℕ)
        → (All P (slots jobs) → All P (slots (remove k jobs)))
        → All P (with_slot slot (slots jobs))
        → All P (with_slot slot (slots (remove k jobs)))
    both none more h' = more h'
    both (some i) more h' = (h'.0, more h'.1)

-- What holds of all buffers that are read holds of that of each job.
abbrev pub OnSlot : (ℕ → Type 0) → Option ℕ → Type 0
OnSlot P none = Unit {0}
OnSlot P (some i) = P i

pub job-OnSlot :
    (P : ℕ → Type 0) (k : ℕ) (jobs : List Job) (job : Job)
    → get_elem? jobs k ≡ some job
    → All P (slots jobs)
    → OnSlot P job.slot
job-OnSlot P k [] job found h = absurd (cc)
job-OnSlot P zero (j ∷ jobs) job found h =
    let same : j ≡ job = cc in subst (λ (x : Job). OnSlot P x.slot) same (first j.slot h)
  where
    first : (slot : Option ℕ) → All P (with_slot slot (slots jobs)) → OnSlot P slot
    first none h' = tt
    first (some i) h' = h'.0
job-OnSlot P (suc k) (j ∷ jobs) job found h = job-OnSlot P k jobs job found (rest j.slot h)
  where
    rest : (slot : Option ℕ) → All P (with_slot slot (slots jobs)) → All P (slots jobs)
    rest none h' = h'
    rest (some i) h' = h'.1

-- The buffer of the job that goes, when the buffers are distinct, is read by no other.
abbrev Freed : Option ℕ → List ℕ → Type 0
Freed none js = Unit {0}
Freed (some i) js = All (Apart i) js

remove-Freed :
    (k : ℕ) (jobs : List Job) (job : Job)
    → get_elem? jobs k ≡ some job
    → AreDistinct (slots jobs)
    → AreDistinct (slots (remove k jobs)) × Freed job.slot (slots (remove k jobs))
remove-Freed k [] job found distinct = absurd (cc)
remove-Freed zero (j ∷ jobs) job found distinct =
    let same : j ≡ job = cc in
    subst (λ (x : Job). AreDistinct (slots jobs) × Freed x.slot (slots jobs)) same
      (first j.slot distinct)
  where
    first :
        (slot : Option ℕ)
        → AreDistinct (with_slot slot (slots jobs))
        → AreDistinct (slots jobs) × Freed slot (slots jobs)
    first none h = (h, tt)
    first (some i) h = (h.1, h.0)
remove-Freed (suc k) (j ∷ jobs) job found distinct =
    behind_first j.slot job.slot distinct (remove-Freed k jobs job found)
      (λ (P : ℕ → Type 0). job-OnSlot P k jobs job found)
  where
    behind_first :
        (mine slot : Option ℕ)
        → AreDistinct (with_slot mine (slots jobs))
        → (AreDistinct (slots jobs)
            → AreDistinct (slots (remove k jobs)) × Freed slot (slots (remove k jobs)))
        → ((P : ℕ → Type 0) → All P (slots jobs) → OnSlot P slot)
        → AreDistinct (with_slot mine (slots (remove k jobs)))
          × Freed slot (with_slot mine (slots (remove k jobs)))
    behind_first none slot h more each = more h
    behind_first (some i) none h more each = ((remove-All (Apart i) k jobs h.0, (more h.1).0), tt)
    behind_first (some i) (some s) h more each =
        let apart : s ≢ i = each (Apart i) h.0 in
        (
          (remove-All (Apart i) k jobs h.0, (more h.1).0),
          ((λ (e : i ≡ s). apart (sym e)), (more h.1).1),
        )

give_back-taken :
    (slot : Option ℕ) (fils : List Bool) (js : List ℕ)
    → Freed slot js
    → All (IsTaken fils) js
    → All (IsTaken (give_back slot fils)) js
give_back-taken none fils js freed held = held
give_back-taken (some i) fils js freed held = keep_taken fils i false js freed held

end_job-IsExclusive :
    (speedloop k : ℕ) (l : Listener)
    → IsExclusive l
    → IsExclusive (end_job speedloop k (get_elem? l.jobs k) l)
unfolding count_received
end_job-IsExclusive speedloop k l own = by_job (get_elem? l.jobs k) refl
  where
    by_job : (o : Option Job) → get_elem? l.jobs k ≡ o → IsExclusive (end_job speedloop k o l)
    by_job none e = own
    by_job (some job) e =
        let left = remove-Freed k l.jobs job e own.distinct in
        record {
          distinct = left.0;
          taken =
              give_back-taken job.slot l.fils (slots (remove k l.jobs)) left.1
                (remove-All (IsTaken l.fils) k l.jobs own.taken);
        }

-- In every state that the listener and its jobs reach, in any order of their steps, no buffer is
-- read by two jobs, and every buffer that a job reads is taken, so that the listener does not read
-- into it.
pub Steps-IsExclusive :
    (speedloop ncpu : ℕ) (l : Listener) → Steps speedloop (started ncpu) l → IsExclusive l
unfolding started
Steps-IsExclusive speedloop ncpu l run = keep run (record { distinct = tt; taken = tt })
  where
    step : {m n : Listener} → Step speedloop m n → IsExclusive m → IsExclusive n
    step (turns r m) own = listen_turn-IsExclusive r m own
    step (ends k m) own = end_job-IsExclusive speedloop k m own

    keep : {m n : Listener} → Steps speedloop m n → IsExclusive m → IsExclusive n
    keep (here m) own = own
    keep (and_then s more) own = keep more (step s own)
