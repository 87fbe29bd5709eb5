-- ===== src/Link/Nic/Eaten.antt =====
-- How far sendAllSameDst gets.

use wire_gold.Common.{
  lt→ltb, le→ltb, ==_refl, length, drop, ℕ, zero, suc, ◌≤◌, ◌<◌, ◌≡◌, refl, ◌⊎◌, Bool, true, some,
  List, arith,
}
use wire_gold.Link.Router.{Router}
use wire_gold.Link.Nic.{WaterUtil, Run, endless, ends, same_id, Sent}

-- An accessor panics only where the packet is shorter than the header that it reads.
pub record Reads (w : WaterUtil) : Type 0 where
  pub version : (b : List ℕ) → 0 < length b → (t : Bool) × (w.is_ipv4 b ≡ some t)
  pub version6 : (b : List ℕ) → 0 < length b → (t : Bool) × (w.is_ipv6 b ≡ some t)
  pub totl : (b : List ℕ) → 20 ≤ length b → (t : ℕ) × (w.total_length b ≡ some t)
  pub ident : (b : List ℕ) → 20 ≤ length b → (id : ℕ) × (w.identification b ≡ some id)
  pub dest : (b : List ℕ) → 20 ≤ length b → (ip : List ℕ) × (w.destination b ≡ some ip)

-- The packets of one datagram declare lengths that count their headers.
abbrev pub HasHeaders : WaterUtil → ℕ → List ℕ → Type 0
HasHeaders w id rem =
    (i t : ℕ)
    → w.identification (drop i rem) ≡ some id
    → w.total_length (drop i rem) ≡ some t
    → 20 ≤ t

-- Behind the IPv6 packets as well.
abbrev pub DeclaresHeaders : WaterUtil → List ℕ → Type 0
DeclaresHeaders w packet =
    (m id : ℕ)
    → w.is_ipv4 (drop m packet) ≡ some true
    → w.identification (drop m packet) ≡ some id
    → HasHeaders w id (drop m packet)

IsEaten : Run ℕ → ℕ → Type 0
IsEaten r bound = (i : ℕ) × (r ≡ ends i) × (i ≤ bound) × ((i ≡ 0) ⊎ (20 ≤ i))

abbrev pub IsWithin : Run (ℕ × Sent) → ℕ → Type 0
IsWithin r bound = (n : ℕ) × (sent : Sent) × (r ≡ ends (n, sent)) × (n ≤ bound)

-- The header of an IPv4 packet is cut off.
abbrev pub IsCutOff : WaterUtil → List ℕ → Type 0
IsCutOff w packet =
    (m : ℕ) × (w.is_ipv4 (drop m packet) ≡ some true) × (length (drop m packet) < 20)

-- A packet of more than 20 bytes that declares a total length of zero keeps the loop over the
-- packets of its datagram from ending: no number of rounds is enough.
pub same_id_hangs :
    (w : WaterUtil) (rem : List ℕ) (id fuel : ℕ)
    → 20 < length rem
    → w.identification rem ≡ some id
    → w.total_length rem ≡ some 0
    → same_id w id rem fuel 0 ≡ endless
unfolding same_id
same_id_hangs w rem id zero long named empty = refl
same_id_hangs w rem id (suc fuel) long named empty =
    rw (lt→ltb 20 (length rem) long, named, ==_refl id, empty, le→ltb (length rem) 0 (omega arith))
      (same_id_hangs w rem id fuel long named empty)
