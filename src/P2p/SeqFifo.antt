-- ===== src/P2p/SeqFifo.antt =====
-- gold/p2p/icmp/icmp.go: seqFIFO, the queue of sequence numbers of the requests to answer.
pub mod Queue
use wire_gold.Common.{
  ltb, leb, ◌==◌, if◌then◌else◌, ltb→lt, lt→ltb, leb→le, le→ltb, lt→leb, le→leb, ==_iff, ==_refl,
  Bool-cases, Option-cases, all_below, all_below_sound, length, get_elem?, get_or, set, take, drop,
  replicate, Some, All, length-append, length-take, length-drop, length-replicate, take-append-drop,
  take-append, drop-append, take-all, drop-all, drop-nil, drop-drop, take-add, All-append, All-take,
  All-drop, get_or-append_last, take_front, All-weaken, bit_or_step, bit_and-zero, bit_or-zero,
  bit_and_mask, bit_or_fields, bit_xor_cancel, bit_xor_comm, bit_or_assoc, bit_xor-lt, IsByte,
  AreBytes, put_uint, get_uint, length-put_uint, put_uint-AreBytes, get_uint-put_uint, get_uint-lt,
  put_uint-get_uint, get_uint-append, get_uint-take, get_or_ext, ℕ, zero, suc, ◌+◌, ◌-◌, ◌*◌, ◌/◌,
  ◌%◌, ◌^◌, ◌≤◌, ◌<◌, min, bit_and, bit_or, bit_xor, ◌≡◌, refl, sym, ap, ap₂, ◌∙◌, ◌≢◌, ◌↔◌, ◌⊎◌,
  inl, inr, Bool, true, false, not, ◌&&◌, ◌||◌, Option, none, some, List, [], ◌∷◌, ◌++◌,
  append_assoc, append-nil, arith, pow-suc, dec_lt, ℕ_discrete,
}

-- `next` is the counter of the peer, a uintptr of 64 bits.
pub record SeqFifo : Type 0 where
  pub q : List ℕ
  pub next : ℕ

-- cap(f.q), for a queue that is not empty.
abbrev pub capacity : ℕ
capacity = 128

abbrev pub taken : ℕ → List ℕ → ℕ × SeqFifo
taken next [] = ((next + 1) % 2 ^ 64, record { q = []; next = (next + 1) % 2 ^ 64 })
taken next (v ∷ rest) = (v, record { q = rest; next = next })

unfoldable pub get : SeqFifo → ℕ × SeqFifo
get f = taken f.next f.q

-- A full queue loses its oldest number.
unfoldable pub put : SeqFifo → ℕ → SeqFifo
put f v =
    if ltb (length f.q) capacity
    then record f { q = f.q ++ (v ∷ []) }
    else record f { q = drop 1 f.q ++ (v ∷ []) }
