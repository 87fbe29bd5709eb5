-- ===== src/Link/Router/Wider.antt =====
-- Where packets go after SetItem.
use mathlib.Core.Path.{subst}
use wire_gold.Common.{
  ◌==◌, ==_iff, ==_refl, Bool-cases, ℕ, ◌<◌, ◌≡◌, refl, sym, ap, ◌∙◌, inl, inr, true, false, ◌&&◌,
  Option, none, some, List, [], ◌∷◌, arith,
}
use wire_gold.Link.Router.{IpNet, Router, contains, first_match, place, set_item, next_hop, routed}
use wire_gold.Link.Router.Order.{nested, first_match-here, first_match-behind, contains_trans}

same_net_refl : (n : IpNet) → n.base == n.base && n.len == n.len ≡ true
same_net_refl n = rw (==_refl n.base, ==_refl n.len) refl

contains_self : (n : IpNet) → contains n n.base ≡ true
unfolding contains
contains_self n = ==_refl _

-- The first match contains the address.
first_match-contains :
    (list : List IpNet) (ip : ℕ) (c : IpNet) → first_match list ip ≡ some c → contains c ip ≡ true
unfolding first_match
first_match-contains [] ip c e = cc
first_match-contains (d ∷ rest) ip c e = elim (Bool-cases (contains d ip)) [
  | inl found ↦
      let whole : some d ≡ some c = sym (first_match-here d rest ip found) ∙ e in
      let same : d ≡ c = cc in subst (λ x. contains x ip ≡ true) same found
  | inr no_match ↦ first_match-contains rest ip c (sym (first_match-behind d rest ip no_match) ∙ e)
]

-- Inside a narrower network that holds its base, the new one holds every address.
inside_both :
    (n c : IpNet) (ip : ℕ)
    → n.len < c.len
    → contains c n.base ≡ true
    → contains c ip ≡ true
    → contains n ip ≡ true
inside_both n c ip lt base found =
    contains_trans n c ip (omega arith) (nested n c n.base (contains_self n) base (omega arith))
      found

-- Where `place` puts the network: in front of its first match, if that is of another size.
place-here :
    (c n : IpNet) (rest : List IpNet)
    → contains c n.base ≡ true
    → n.len == c.len ≡ false
    → place (c ∷ rest) n ≡ (n ∷ c ∷ rest, some n)
unfolding place
place-here c n rest inside differ = rw (inside, differ) refl

place-behind :
    (c n : IpNet) (rest : List IpNet)
    → contains c n.base ≡ false
    → place (c ∷ rest) n ≡ (c ∷ (place rest n).0, (place rest n).1)
unfolding place
place-behind c n rest outside = rw outside refl

differ : (m n : ℕ) → m < n → m == n ≡ false
differ m n lt = elim (Bool-cases (m == n)) [
  | inl same ↦ absurd (omega (arith, (==_iff m n).0 same))
  | inr other ↦ other
]

abbrev IsTaken : List IpNet × Option IpNet → ℕ → IpNet → Type 0
IsTaken placed ip n = (first_match placed.0 ip ≡ some n) × (placed.1 ≡ some n)

place-IsTaken :
    (list : List IpNet) (n c : IpNet) (ip : ℕ)
    → n.len < c.len
    → first_match list n.base ≡ some c
    → first_match list ip ≡ some c
    → IsTaken (place list n) ip n
unfolding first_match
place-IsTaken [] n c ip lt base e = cc
place-IsTaken (d ∷ rest) n c ip lt base e = elim (Bool-cases (contains d n.base)) [
  | inl inside ↦
      let whole : some d ≡ some c = sym (first_match-here d rest n.base inside) ∙ base in
      let same : d ≡ c = cc in
      let narrower : n.len < d.len = subst (λ x. n.len < x.len) (sym same) lt in
      let found : contains d ip ≡ true =
        subst (λ x. contains x ip ≡ true) (sym same) (first_match-contains (d ∷ rest) ip c e) in
      subst (λ x. IsTaken x ip n) (sym (place-here d n rest inside (differ n.len d.len narrower)))
        (first_match-here n (d ∷ rest) ip (inside_both n d ip narrower inside found), refl)
  | inr outside ↦
      let base_behind : first_match rest n.base ≡ some c =
        sym (first_match-behind d rest n.base outside) ∙ base in
      elim (Bool-cases (contains d ip)) [
        | inl found ↦
            let whole : some d ≡ some c = sym (first_match-here d rest ip found) ∙ e in
            let same : d ≡ c = cc in
            let inside : contains d n.base ≡ true =
              subst (λ x. contains x n.base ≡ true) (sym same)
                (first_match-contains rest n.base c base_behind) in
            absurd cc
        | inr no_match ↦
            let behind : IsTaken (place rest n) ip n =
              place-IsTaken rest n c ip lt base_behind
                (sym (first_match-behind d rest ip no_match) ∙ e) in
            subst (λ x. IsTaken x ip n) (sym (place-behind d n rest outside))
              (first_match-behind d (place rest n).0 ip no_match ∙ behind.0, behind.1)
      ]
]

-- Adding a network to a table in which the first match of its base address is a narrower one takes
-- over the routes of that one: every address that it routed and that is not in the cache goes to
-- the new link, and the cache learns so.
pub set_item-shadows :
    (r : Router) (n c : IpNet) (link : Option ℕ) (ip : ℕ)
    → n.len < c.len
    → first_match r.list n.base ≡ some c
    → first_match r.list ip ≡ some c
    → next_hop none (some ip) (set_item n link r) ≡ (link, some (ip, link))
unfolding next_hop set_item
set_item-shadows r n c link ip lt base e =
    let taken = place-IsTaken r.list n c ip lt base e in
    let route : routed (set_item n link r) ip (some n) ≡ (link, some (ip, link)) =
      rw (taken.1, same_net_refl n) refl in
    ap (routed (set_item n link r) ip) taken.0 ∙ route
