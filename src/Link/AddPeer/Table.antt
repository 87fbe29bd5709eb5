-- ===== src/Link/AddPeer/Table.antt =====
-- What AddPeer leaves in the connections and the routes.
use mathlib.Core.Path.{subst}
use wire_gold.Common.{
  ◌==◌, Bool-cases, ℕ, ◌≡◌, refl, sym, ap, ◌∙◌, ◌≢◌, inl, inr, Option, none, some, List, [], ◌∷◌,
}
use wire_gold.Algo.Hash.{same_bytes_refl}
use wire_gold.Algo.Seal.{Aead}
use wire_gold.Link.Router.{IpNet, Router, routed}
use wire_gold.Link.Dispatch.{Peer, Me, is_in_peer, ip_number}
use wire_gold.Link.AddPeer.{
  PeerConfig, routed_nets, allowed_nets, keys_of, new_peer, endpoint_of, joined, known_or, register,
  add_peer, add_routes,
}

is_in_peer-here :
    (ip : List ℕ) (p : Peer) (rest : List (List ℕ × Peer)) → is_in_peer ip ((ip, p) ∷ rest) ≡ some p
unfolding is_in_peer
is_in_peer-here ip p rest = rw (same_bytes_refl ip) refl

register-found :
    (ip : List ℕ) (p : Peer) (nets : List IpNet) (m : Me)
    → nets ≢ []
    → is_in_peer ip (register ip p nets m).connections ≡ some p
register-found ip p [] m routed = absurd (routed refl)
register-found ip p (n ∷ nets) m routed = is_in_peer-here ip p m.connections

abbrev IsFound : List ℕ → Option (Peer × Me × Router) → Type 0
IsFound ip none = Unit {0}
IsFound ip (some (p, m, r)) = is_in_peer ip m.connections ≡ some p

joined-IsFound :
    (cfg : PeerConfig) (keys : Option (ℕ → Option Aead)) (endpoint : Option (Option ℕ))
    (nets : Option (List IpNet)) (m : Me) (r : Router)
    → routed_nets cfg.allowed ≢ []
    → IsFound cfg.peer_ip (joined cfg keys endpoint nets m r)
joined-IsFound cfg none endpoint nets m r routed = tt
joined-IsFound cfg (some keys) none nets m r routed = tt
joined-IsFound cfg (some keys) (some endpoint) none m r routed = tt
joined-IsFound cfg (some keys) (some endpoint) (some nets) m r routed =
    register-found cfg.peer_ip (new_peer endpoint cfg keys nets) (routed_nets cfg.allowed) m routed

add_peer-IsFound :
    (new_x : List ℕ → Aead) (cfg : PeerConfig) (m : Me) (r : Router)
    → is_in_peer cfg.peer_ip m.connections ≡ none
    → routed_nets cfg.allowed ≢ []
    → IsFound cfg.peer_ip (add_peer new_x cfg m r)
unfolding add_peer
add_peer-IsFound new_x cfg m r new routed = elim (Bool-cases (cfg.mtu == 0)) [
  | inl zero_mtu ↦ rw (new, zero_mtu) tt
  | inr some_mtu ↦
      rw (new, some_mtu)
        (joined-IsFound cfg (keys_of new_x cfg.shared cfg.preshared) (endpoint_of cfg.endpoint)
          (allowed_nets cfg.allowed) m r routed)
]

-- A new peer with a route, once added, is found under its address: adding a peer under that
-- address again, whatever its configuration, returns it and changes nothing.
pub add_peer_twice :
    (new_x : List ℕ → Aead) (cfg cfg' : PeerConfig) (m : Me) (r : Router) (p : Peer) (m' : Me)
    (r' : Router)
    → is_in_peer cfg.peer_ip m.connections ≡ none
    → routed_nets cfg.allowed ≢ []
    → add_peer new_x cfg m r ≡ some (p, m', r')
    → cfg'.peer_ip ≡ cfg.peer_ip
    → add_peer new_x cfg' m' r' ≡ some (p, m', r')
unfolding add_peer
add_peer_twice new_x cfg cfg' m r p m' r' new routed added same =
    let found : is_in_peer cfg.peer_ip m'.connections ≡ some p =
      subst (IsFound cfg.peer_ip) added (add_peer-IsFound new_x cfg m r new routed) in
    let found_again : is_in_peer cfg'.peer_ip m'.connections ≡ some p =
      subst (λ (ip : List ℕ). is_in_peer ip m'.connections ≡ some p) (sym same) found in
    ap (known_or new_x cfg' m' r') found_again

abbrev IsUnchanged : Me → Router → Option (Peer × Me × Router) → Type 0
IsUnchanged m r none = Unit {0}
IsUnchanged m r (some (p, m', r')) = (m' ≡ m) × (r' ≡ r)

joined-IsUnchanged :
    (cfg : PeerConfig) (keys : Option (ℕ → Option Aead)) (endpoint : Option (Option ℕ))
    (nets : Option (List IpNet)) (m : Me) (r : Router)
    → routed_nets cfg.allowed ≡ []
    → IsUnchanged m r (joined cfg keys endpoint nets m r)
unfolding add_routes
joined-IsUnchanged cfg none endpoint nets m r unrouted = tt
joined-IsUnchanged cfg (some keys) none nets m r unrouted = tt
joined-IsUnchanged cfg (some keys) (some endpoint) none m r unrouted = tt
joined-IsUnchanged cfg (some keys) (some endpoint) (some nets) m r unrouted = (
  ap (λ l. register cfg.peer_ip (new_peer endpoint cfg keys nets) l m) unrouted,
  ap (λ l. add_routes (ip_number cfg.peer_ip) l r) unrouted,
)

add_peer-IsUnchanged :
    (new_x : List ℕ → Aead) (cfg : PeerConfig) (m : Me) (r : Router)
    → is_in_peer cfg.peer_ip m.connections ≡ none
    → routed_nets cfg.allowed ≡ []
    → IsUnchanged m r (add_peer new_x cfg m r)
unfolding add_peer
add_peer-IsUnchanged new_x cfg m r new unrouted = elim (Bool-cases (cfg.mtu == 0)) [
  | inl zero_mtu ↦ rw (new, zero_mtu) tt
  | inr some_mtu ↦
      rw (new, some_mtu)
        (joined-IsUnchanged cfg (keys_of new_x cfg.shared cfg.preshared) (endpoint_of cfg.endpoint)
          (allowed_nets cfg.allowed) m r unrouted)
]

-- Adding a new peer none of whose networks has a route leaves the connections and the routes as
-- they were, so the peer stays unknown.
pub add_peer_unregistered :
    (new_x : List ℕ → Aead) (cfg : PeerConfig) (m : Me) (r : Router) (p : Peer) (m' : Me)
    (r' : Router)
    → is_in_peer cfg.peer_ip m.connections ≡ none
    → routed_nets cfg.allowed ≡ []
    → add_peer new_x cfg m r ≡ some (p, m', r')
    → (m' ≡ m) × (r' ≡ r) × (is_in_peer cfg.peer_ip m'.connections ≡ none)
add_peer_unregistered new_x cfg m r p m' r' new unrouted added =
    let same : (m' ≡ m) × (r' ≡ r) =
      subst (IsUnchanged m r) added (add_peer-IsUnchanged new_x cfg m r new unrouted) in
    (same.0, same.1, ap (λ (h : Me). is_in_peer cfg.peer_ip h.connections) same.0 ∙ new)
