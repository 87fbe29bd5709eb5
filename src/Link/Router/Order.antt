-- ===== src/Link/Router/Order.antt =====
-- The list is searched from narrow networks to wide ones.
use wire_gold.Common.{
  ◌==◌, ==_iff, Bool-cases, All, All-weaken, ℕ, zero, suc, ◌+◌, ◌-◌, ◌/◌, ◌≤◌, ◌<◌, ◌≡◌, refl, sym,
  ap, ◌∙◌, ◌⊎◌, inl, inr, true, false, Option, some, List, [], ◌∷◌, arith, dec_lt,
}
use mathlib.Core.Path.{subst}
use wire_gold.Link.Router.{IpNet, Router, shift_right, contains, first_match, place, set_item}

shift_right-add : (j k x : ℕ) → shift_right (j + k) x ≡ shift_right k (shift_right j x)
unfolding shift_right
shift_right-add zero k x = ap (λ (t : ℕ). shift_right t x) start
  where
    start : 0 + k ≡ k
    start = omega arith
shift_right-add (suc j) k x = ap (λ (t : ℕ). shift_right t x) next ∙ shift_right-add j k (x / 2)
  where
    next : suc j + k ≡ suc (j + k)
    next = omega arith

-- Addresses that agree on a prefix agree on every shorter one.
pub shorter_prefix :
    (m n x y : ℕ)
    → m ≤ n
    → shift_right (32 - n) x ≡ shift_right (32 - n) y
    → shift_right (32 - m) x ≡ shift_right (32 - m) y
shorter_prefix m n x y h e =
    let split : 32 - m ≡ (32 - n) + ((32 - m) - (32 - n)) = omega arith in
    rw
      (
        split,
        shift_right-add (32 - n) ((32 - m) - (32 - n)) x,
        shift_right-add (32 - n) ((32 - m) - (32 - n)) y,
        e,
      )
      refl

-- A strictly wider network.
abbrev pub Covers : IpNet → IpNet → Type 0
Covers c d = (contains c d.base ≡ true) × (c.len < d.len)

-- No network of the list strictly contains one behind it.
abbrev pub IsOrdered : List IpNet → Type 0
IsOrdered [] = Unit {0}
IsOrdered (c ∷ rest) = All (λ d. ¬ (Covers c d)) rest × IsOrdered rest

-- Two networks that contain one address are nested.
pub nested :
    (c d : IpNet) (ip : ℕ)
    → contains c ip ≡ true
    → contains d ip ≡ true
    → c.len ≤ d.len
    → contains c d.base ≡ true
unfolding contains
nested c d ip hc hd le =
    (==_iff _ _).1
      (sym (shorter_prefix c.len d.len ip d.base le ((==_iff _ _).0 hd)) ∙ (==_iff _ _).0 hc)

behind_match :
    (c : IpNet) (rest : List IpNet) (ip : ℕ)
    → contains c ip ≡ true
    → All (λ d. ¬ (Covers c d)) rest
    → All (λ d. (contains d ip ≡ false) ⊎ (d.len ≤ c.len)) rest
behind_match c [] ip h o = tt
behind_match c (d ∷ rest) ip h o = (here (Bool-cases (contains d ip)), behind_match c rest ip h o.1)
  where
    here :
        ((contains d ip ≡ true) ⊎ (contains d ip ≡ false))
        → (contains d ip ≡ false) ⊎ (d.len ≤ c.len)
    here (inr no_match) = inl no_match
    here (inl found) = elim (dec_lt c.len d.len) [
      | yes narrower ↦ absurd (o.0 (nested c d ip h found (omega arith), narrower))
      | no wider ↦ inr (omega arith)
    ]

pub first_match-here :
    (c : IpNet) (rest : List IpNet) (ip : ℕ)
    → contains c ip ≡ true
    → first_match (c ∷ rest) ip ≡ some c
unfolding first_match
first_match-here c rest ip h = rw h refl

pub first_match-behind :
    (c : IpNet) (rest : List IpNet) (ip : ℕ)
    → contains c ip ≡ false
    → first_match (c ∷ rest) ip ≡ first_match rest ip
unfolding first_match
first_match-behind c rest ip h = rw h refl

-- The network contains the address, and none of the list that does is longer.
abbrev pub IsLongest : List IpNet → ℕ → IpNet → Type 0
IsLongest list ip c =
    (contains c ip ≡ true) × All (λ d. (contains d ip ≡ false) ⊎ (d.len ≤ c.len)) list

-- In an ordered list the first network that contains an address is a longest one that does.
pub first_match-IsLongest :
    (list : List IpNet) (ip : ℕ) (c : IpNet)
    → IsOrdered list
    → first_match list ip ≡ some c
    → IsLongest list ip c
unfolding first_match
first_match-IsLongest [] ip c o e = cc
first_match-IsLongest (d ∷ rest) ip c o e = elim (Bool-cases (contains d ip)) [
  | inl found ↦
      let whole : some d ≡ some c = sym (first_match-here d rest ip found) ∙ e in
      let same : d ≡ c = cc in
      subst (IsLongest (d ∷ rest) ip) same
        (found, (inr (omega arith), behind_match d rest ip found o.0))
  | inr no_match ↦
      let behind : IsLongest rest ip c =
        first_match-IsLongest rest ip c o.1 (sym (first_match-behind d rest ip no_match) ∙ e) in
      (behind.0, (inl no_match, behind.1))
]

-- A network inside another holds the addresses of neither more.
pub contains_trans :
    (c n : IpNet) (ip : ℕ)
    → c.len ≤ n.len
    → contains c n.base ≡ true
    → contains n ip ≡ true
    → contains c ip ≡ true
unfolding contains
contains_trans c n ip le hc hn =
    (==_iff _ _).1 (shorter_prefix c.len n.len ip n.base le ((==_iff _ _).0 hn) ∙ (==_iff _ _).0 hc)

-- The base of the new network is in no narrower network.
abbrev pub IsNarrowest : List IpNet → IpNet → Type 0
IsNarrowest list n = All (λ d. (contains d n.base ≡ false) ⊎ (d.len ≤ n.len)) list

Covers-none :
    (c n : IpNet) (rest : List IpNet)
    → contains c n.base ≡ true
    → c.len < n.len
    → All (λ d. ¬ (Covers c d)) rest
    → All (λ d. ¬ (Covers n d)) rest
Covers-none c n rest h lt o =
    All-weaken (λ d. ¬ (Covers c d)) (λ d. ¬ (Covers n d)) rest
      (λ d o covered.
        o (contains_trans c n d.base (omega arith) h covered.0, omega (arith, covered.1)))
      o

place-All :
    (P : IpNet → Type 0) (list : List IpNet) (n : IpNet)
    → (P n)
    → All P list
    → All P (place list n).0
unfolding place
place-All P [] n p ps = tt
place-All P (c ∷ rest) n p ps = elim (Bool-cases (contains c n.base)) [
  | inr outside ↦ rw outside (ps.0, place-All P rest n p ps.1)
  | inl inside ↦ elim (Bool-cases (n.len == c.len)) [
    | inl same ↦ rw (inside, same) ps
    | inr differ ↦ rw (inside, differ) (p, ps)
  ]
]

strictly_wider :
    (c n : IpNet)
    → contains c n.base ≡ true
    → n.len == c.len ≡ false
    → (contains c n.base ≡ false) ⊎ (c.len ≤ n.len)
    → c.len < n.len
strictly_wider c n inside differ (inl outside) = cc
strictly_wider c n inside differ (inr le) = elim (dec_lt c.len n.len) [
  | yes lt ↦ lt
  | no ge ↦ let same : n.len == c.len ≡ true = (==_iff n.len c.len).1 (omega arith) in cc
]

place-IsOrdered :
    (list : List IpNet) (n : IpNet)
    → IsOrdered list
    → IsNarrowest list n
    → IsOrdered (place list n).0
unfolding place
place-IsOrdered [] n o h = tt
place-IsOrdered (c ∷ rest) n o h = elim (Bool-cases (contains c n.base)) [
  | inr outside ↦
      let apart : ¬ (Covers c n) = λ covered. cc in
      rw outside (place-All (λ d. ¬ (Covers c d)) rest n apart o.0, place-IsOrdered rest n o.1 h.1)
  | inl inside ↦ elim (Bool-cases (n.len == c.len)) [
    | inl same ↦ rw (inside, same) o
    | inr differ ↦
        let lt : c.len < n.len = strictly_wider c n inside differ h.0 in
        let apart : ¬ (Covers n c) = λ covered. omega (arith, covered.1) in
        rw (inside, differ) ((apart, Covers-none c n rest inside lt o.0), o)
  ]
]

-- Adding a network whose base lies in no narrower one of the table keeps the list ordered: no
-- network stands in front of one that it strictly contains.
pub set_item-IsOrdered :
    (r : Router) (n : IpNet) (link : Option ℕ)
    → IsOrdered r.list
    → IsNarrowest r.list n
    → IsOrdered (set_item n link r).list
unfolding set_item
set_item-IsOrdered r n link o h = place-IsOrdered r.list n o h
