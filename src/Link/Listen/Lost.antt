-- ===== src/Link/Listen/Lost.antt =====
-- gold/link/listen.go: buffers that are taken and never given back.
use wire_gold.Common.{
  ◌==◌, if◌then◌else◌, get_elem?, set, All, ℕ, zero, suc, ◌≡◌, refl, sym, ap, ◌∙◌, ◌≢◌, ◌⊎◌, inl,
  inr, Bool, true, false, Option, none, some, List, ◌∷◌,
}
use mathlib.Core.Path.{subst}
use wire_gold.Link.Listen.{
  Listener, Job, started, Received, claim, turn_with, listen_turn, give_back, count_received,
  end_job, Step, Steps, quit, broken, got, turns, ends, here, and_then,
}
use wire_gold.Link.Listen.Slots.{
  IsExclusive, slots, Apart, IsTaken, IsLost, get_elem?-set, get_elem?-set_other, Claimed,
  claim-Claimed, taken-Apart,
}
use wire_gold.Link.Listen.Jobs.{Steps-IsExclusive, remove-All, OnSlot, job-OnSlot}

-- A datagram of no bytes, or an error after which the listener listens anew.
abbrev pub StartsNoJob : Received → Type 0
StartsNoJob r = (r ≡ got 0) ⊎ (r ≡ broken true)

-- Another turn leaves it lost.
turn_with-IsLost :
    (i : ℕ) (r : Received) (l : Listener) (slot : Option ℕ) (after : List Bool)
    → Claimed l.fils (slot, after)
    → IsLost i l
    → IsLost i (turn_with r (slot, after) l)
turn_with-IsLost i r l none after h lost = unread r
  where
    still : IsTaken after i
    still = subst (λ (f : List Bool). IsTaken f i) (sym h) lost.taken

    unread : (r' : Received) → IsLost i (turn_with r' (none, after) l)
    unread quit = record { taken = still; unread = lost.unread }
    unread (broken again) = record { taken = still; unread = lost.unread }
    unread (got n) =
        elim (n == 0)
          as (λ (t : Bool). IsLost i (
            if t
            then record l { fils = after }
            else record l { fils = after; jobs = (record { slot = none; n = n }) ∷ l.jobs })) [
              | true ↦ record { taken = still; unread = lost.unread }
              | false ↦ record { taken = still; unread = lost.unread }
            ]
turn_with-IsLost i r l (some s) after h lost = unread r
  where
    away : s ≢ i
    away same =
        let both : some true ≡ some false =
          sym lost.taken ∙ ap (get_elem? l.fils) (sym same) ∙ h.0 in
        cc

    still : IsTaken after i
    still =
        subst (λ (f : List Bool). IsTaken f i) (sym h.1)
          (get_elem?-set_other l.fils s i true (λ (e : i ≡ s). away (sym e)) ∙ lost.taken)

    unread : (r' : Received) → IsLost i (turn_with r' (some s, after) l)
    unread quit = record { taken = still; unread = lost.unread }
    unread (broken again) = record { taken = still; unread = lost.unread }
    unread (got n) =
        elim (n == 0)
          as (λ (t : Bool). IsLost i (
            if t
            then record l { fils = after }
            else record l { fils = after; jobs = (record { slot = some s; n = n }) ∷ l.jobs })) [
              | true ↦ record { taken = still; unread = lost.unread }
              | false ↦ record { taken = still; unread = (away, lost.unread) }
            ]

listen_turn-IsLost : (i : ℕ) (r : Received) (l : Listener) → IsLost i l → IsLost i (listen_turn r l)
unfolding listen_turn
listen_turn-IsLost i r l lost =
    elim l.listening as (λ (t : Bool). IsLost i (if t then turn_with r (claim l.fils) l else l)) [
      | true ↦ turn_with-IsLost i r l (claim l.fils).0 (claim l.fils).1 (claim-Claimed l.fils) lost
      | false ↦ lost
    ]

end_job-IsLost :
    (i speedloop k : ℕ) (l : Listener)
    → IsLost i l
    → IsLost i (end_job speedloop k (get_elem? l.jobs k) l)
unfolding count_received
end_job-IsLost i speedloop k l lost = by_job (get_elem? l.jobs k) refl
  where
    given : (slot : Option ℕ) → OnSlot (Apart i) slot → IsTaken (give_back slot l.fils) i
    given none apart = lost.taken
    given (some s) apart =
        get_elem?-set_other l.fils s i false (λ (e : i ≡ s). apart (sym e)) ∙ lost.taken

    by_job : (o : Option Job) → get_elem? l.jobs k ≡ o → IsLost i (end_job speedloop k o l)
    by_job none e = lost
    by_job (some job) e = record {
      taken = given job.slot (job-OnSlot (Apart i) k l.jobs job e lost.unread);
      unread = remove-All (Apart i) k l.jobs lost.unread;
    }

Steps-IsLost : (i speedloop : ℕ) {l m : Listener} → Steps speedloop l m → IsLost i l → IsLost i m
Steps-IsLost i speedloop (here l) lost = lost
Steps-IsLost i speedloop (and_then s more) lost = Steps-IsLost i speedloop more (step s lost)
  where
    step : {l m : Listener} → Step speedloop l m → IsLost i l → IsLost i m
    step (turns r l) h = listen_turn-IsLost i r l h
    step (ends k l) h = end_job-IsLost i speedloop k l h

-- The buffer that such a turn claims.
turn_loses :
    (i : ℕ) (r : Received) (l : Listener)
    → IsExclusive l
    → l.listening ≡ true
    → (claim l.fils).0 ≡ some i
    → StartsNoJob r
    → IsLost i (listen_turn r l)
unfolding listen_turn
turn_loses i r l own listens first starts =
    subst (λ (t : Bool). IsLost i (if t then turn_with r (claim l.fils) l else l)) (sym listens)
      (by_claim (claim l.fils).0 (claim l.fils).1 first (claim-Claimed l.fils))
  where
    kept :
        (after : List Bool)
        → IsTaken after i
        → All (Apart i) (slots l.jobs)
        → (r' : Received) (slot : Option ℕ) → StartsNoJob r'
        → IsLost i (turn_with r' (slot, after) l)
    kept after marked unread quit slot st = elim st [ inl e ↦ absurd (cc) | inr e ↦ absurd (cc) ]
    kept after marked unread (broken again) slot st = record { taken = marked; unread = unread }
    kept after marked unread (got zero) slot st = record { taken = marked; unread = unread }
    kept after marked unread (got (suc n)) slot st = elim st [
      | inl e ↦ absurd (cc)
      | inr e ↦ absurd (cc)
    ]

    by_claim :
        (slot : Option ℕ) (after : List Bool)
        → slot ≡ some i
        → Claimed l.fils (slot, after)
        → IsLost i (turn_with r (slot, after) l)
    by_claim none after e h = absurd (cc)
    by_claim (some s) after e h =
        let same : s ≡ i = cc in
        let free : get_elem? l.fils i ≡ some false = ap (get_elem? l.fils) (sym same) ∙ h.0 in
        let marked : IsTaken after i =
          subst (λ (f : List Bool). IsTaken f i)
            (sym (h.1 ∙ ap (λ (j : ℕ). set l.fils j true) same))
            (get_elem?-set l.fils i true false free) in
        kept after marked (taken-Apart l.fils i (slots l.jobs) free own.taken) r (some s) starts

-- When the listener claims a buffer and then receives a datagram of no bytes, or an error after
-- which it listens anew, that buffer stays taken in every state that follows, and no job ever
-- reads it.
pub no_job_loses_buffer :
    (speedloop ncpu i : ℕ) (r : Received) (l m : Listener)
    → Steps speedloop (started ncpu) l
    → l.listening ≡ true
    → (claim l.fils).0 ≡ some i
    → StartsNoJob r
    → Steps speedloop (listen_turn r l) m
    → IsLost i m
no_job_loses_buffer speedloop ncpu i r l m before listens first starts after =
    Steps-IsLost i speedloop after
      (turn_loses i r l (Steps-IsExclusive speedloop ncpu l before) listens first starts)
