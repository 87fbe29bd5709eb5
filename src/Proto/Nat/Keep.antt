-- ===== src/Proto/Nat/Keep.antt =====
-- What the handlers of notify and query can do.
use wire_gold.Common.{
  ◌==◌, Bool-cases, Some, ℕ, ◌≡◌, refl, sym, ap, ◌∙◌, inl, inr, true, false, Option, none, some,
  List, [], ◌∷◌,
}
use wire_gold.Algo.Hash.{same_bytes}
use wire_gold.Link.Dispatch.{Peer, Me, is_in_peer, set_peer}
use wire_gold.Proto.Nat.{
  Notice, moved, set_endpoint, notify_one, notify_all, on_notify, Answer, query_one, query_all,
  put_answer,
}

-- The peers without their endpoints.
abbrev pub settings : List (List ℕ × Peer) → List (List ℕ × Peer)
settings [] = []
settings ((ip, p) ∷ rest) = (ip, record p { endpoint = none }) ∷ settings rest

set_peer-settings :
    (ip : List ℕ) (addr : ℕ) (p : Peer) (peers : List (List ℕ × Peer))
    → is_in_peer ip peers ≡ some p
    → settings (set_peer ip (moved addr p) peers) ≡ settings peers
unfolding is_in_peer
set_peer-settings ip addr p [] e = cc
set_peer-settings ip addr p ((key, q) ∷ rest) e = elim (Bool-cases (same_bytes ip key)) [
  | inl here ↦
      let whole : some q ≡ some p = sym (found here) ∙ e in
      let same : q ≡ p = cc in
      rw here (ap (λ (x : Peer). (key, record x { endpoint = none }) ∷ settings rest) (sym same))
  | inr behind ↦ rw behind (
      ap (λ l. (key, record q { endpoint = none }) ∷ l)
        (set_peer-settings ip addr p rest (sym (passed behind) ∙ e)))
]
  where
    found : same_bytes ip key ≡ true → is_in_peer ip ((key, q) ∷ rest) ≡ some q
    found h = rw h refl

    passed : same_bytes ip key ≡ false → is_in_peer ip ((key, q) ∷ rest) ≡ is_in_peer ip rest
    passed h = rw h refl

set_endpoint-settings :
    (ip : List ℕ) (addr : Option ℕ) (peer : Option Peer) (m : Me)
    → is_in_peer ip m.connections ≡ peer
    → settings (set_endpoint ip addr peer m).connections ≡ settings m.connections
set_endpoint-settings ip none peer m e = refl
set_endpoint-settings ip (some addr) none m e = refl
set_endpoint-settings ip (some addr) (some p) m e = set_peer-settings ip addr p m.connections e

notify_one-settings :
    (own : ℕ) (e : Notice) (m : Me)
    → settings (notify_one own e m).connections ≡ settings m.connections
unfolding notify_one
notify_one-settings own e m = elim (Bool-cases (e.network == own)) [
  | inr other ↦ rw other refl
  | inl same ↦
      rw same
        (set_endpoint-settings e.peer_ip e.endpoint (is_in_peer e.peer_ip m.connections) m refl)
]

notify_all-settings :
    (own : ℕ) (entries : List Notice) (m : Me)
    → settings (notify_all own entries m).connections ≡ settings m.connections
unfolding notify_all
notify_all-settings own [] m = refl
notify_all-settings own (e ∷ rest) m =
    notify_all-settings own rest (notify_one own e m) ∙ notify_one-settings own e m

-- Whatever a notify says, it adds and removes no peer, and changes nothing of one but its
-- endpoint.
pub on_notify-settings :
    (own : ℕ) (entries : Option (List Notice)) (m : Me)
    → settings (on_notify own entries m).connections ≡ settings m.connections
unfolding on_notify
on_notify-settings own none m = refl
on_notify-settings own (some entries) m = notify_all-settings own entries m

-- With UDP, a query that names a peer that is not known, anywhere in its list, stops the program.
pub query_unknown_panics :
    (network_of : ℕ → ℕ) (raw : Option ℕ) (asked : List (List ℕ)) (m : Me)
    → Some (λ ip. is_in_peer ip m.connections ≡ none) asked
    → query_all true network_of raw asked m ≡ none
unfolding query_all query_one
query_unknown_panics network_of raw [] m h = absurd h
query_unknown_panics network_of raw (ip ∷ rest) m (inl unknown) = rw unknown refl
query_unknown_panics network_of raw (ip ∷ rest) m (inr later) =
    rw (query_unknown_panics network_of raw rest m later) (put_answer_none _)
  where
    put_answer_none : (a : Option (Option Answer)) → put_answer a none ≡ none
    put_answer_none none = refl
    put_answer_none (some a) = refl
