-- ===== src/P2p/Icmp/Peers.antt =====
-- gold/p2p/icmp/icmp.go: the states of the peers, each under its own address.
use wire_gold.Common.{
  ◌==◌, if◌then◌else◌, ==_iff, ==_refl, Bool-cases, ◌≡◌, refl, sym, ap, ap₂, ◌∙◌, inl, inr, true,
  false, List, [], ◌∷◌, arith,
}
use wire_gold.P2p.Icmp.{Addr, PeerState, same_addr, state_of, store, v4, v6}

pub same_addr-eq : (a b : Addr) → same_addr a b ≡ true → a ≡ b
same_addr-eq (v4 a) (v4 b) h = ap v4 ((==_iff a b).0 h)
same_addr-eq (v6 a zone) (v6 b zone2) h =
    let value : (a == b) ≡ true = ground arith in
    let scope : (zone == zone2) ≡ true = ground arith in
    ap₂ v6 ((==_iff a b).0 value) ((==_iff zone zone2).0 scope)
same_addr-eq (v4 a) (v6 b zone) h = absurd (cc)
same_addr-eq (v6 a zone) (v4 b) h = absurd (cc)

pub same_addr_refl : (a : Addr) → same_addr a a ≡ true
same_addr_refl (v4 a) = ==_refl a
same_addr_refl (v6 a zone) = rw (==_refl a, ==_refl zone) refl

pub state_of-store :
    (addr : Addr) (ps : PeerState) (peers : List (Addr × PeerState))
    → state_of addr (store addr ps peers) ≡ ps
state_of-store addr ps [] = rw (same_addr_refl addr) refl
state_of-store addr ps ((a, old) ∷ rest) = elim (Bool-cases (same_addr addr a)) [
  | inl same ↦ rw (same, same) refl
  | inr other ↦ rw (other, other) (state_of-store addr ps rest)
]

-- Another peer keeps its state.
pub state_of-store_other :
    (addr other : Addr) (ps : PeerState) (peers : List (Addr × PeerState))
    → same_addr other addr ≡ false
    → state_of other (store addr ps peers) ≡ state_of other peers
state_of-store_other addr other ps [] apart = rw apart refl
state_of-store_other addr other ps ((a, old) ∷ rest) apart = elim (Bool-cases (same_addr addr a)) [
  | inl same ↦
      let e : addr ≡ a = same_addr-eq addr a same in
      let away : same_addr other a ≡ false = ap (same_addr other) (sym e) ∙ apart in
      rw (same, away) refl
  | inr differs ↦ rw differs (
      ap (λ (r : PeerState). if same_addr other a then old else r)
        (state_of-store_other addr other ps rest apart))
]
