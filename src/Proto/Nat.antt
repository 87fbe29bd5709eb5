-- ===== src/Proto/Nat.antt =====
-- gold/proto/nat/nat.go: the handlers of notify and query. JSON is a library's: the handlers take
-- what it decodes, none where it fails. A network name and the text of an endpoint are numbers.
pub mod Keep
use wire_gold.Common.{
  ltb, leb, ◌==◌, if◌then◌else◌, ltb→lt, lt→ltb, leb→le, le→ltb, lt→leb, le→leb, ==_iff, ==_refl,
  Bool-cases, Option-cases, all_below, all_below_sound, length, get_elem?, get_or, set, take, drop,
  replicate, Some, All, length-append, length-take, length-drop, length-replicate, take-append-drop,
  take-append, drop-append, take-all, drop-all, drop-nil, drop-drop, take-add, All-append, All-take,
  All-drop, get_or-append_last, take_front, All-weaken, bit_or_step, bit_and-zero, bit_or-zero,
  bit_and_mask, bit_or_fields, bit_xor_cancel, bit_xor_comm, bit_or_assoc, bit_xor-lt, IsByte,
  AreBytes, put_uint, get_uint, length-put_uint, put_uint-AreBytes, get_uint-put_uint, get_uint-lt,
  put_uint-get_uint, get_uint-append, get_uint-take, get_or_ext, ℕ, zero, suc, ◌+◌, ◌-◌, ◌*◌, ◌/◌,
  ◌%◌, ◌^◌, ◌≤◌, ◌<◌, min, bit_and, bit_or, bit_xor, ◌≡◌, refl, sym, ap, ap₂, ◌∙◌, ◌≢◌, ◌↔◌, ◌⊎◌,
  inl, inr, Bool, true, false, not, ◌&&◌, ◌||◌, Option, none, some, List, [], ◌∷◌, ◌++◌,
  append_assoc, append-nil, arith, pow-suc, dec_lt, ℕ_discrete,
}
use wire_gold.Link.Dispatch.{Peer, Me, is_in_peer, set_peer, is_elsewhere}

-- One entry of a notify: the address of the peer, the network, and what NewEndPoint makes of the
-- endpoint.
pub record Notice : Type 0 where
  pub peer_ip : List ℕ
  pub network : ℕ
  pub endpoint : Option ℕ

abbrev pub moved : ℕ → Peer → Peer
moved addr p = record p {
  endpoint = if is_elsewhere p.endpoint addr then some addr else p.endpoint;
}

abbrev pub set_endpoint : List ℕ → Option ℕ → Option Peer → Me → Me
set_endpoint ip none peer m = m
set_endpoint ip (some addr) none m = m
set_endpoint ip (some addr) (some p) m = record m {
  connections = set_peer ip (moved addr p) m.connections;
}

unfoldable pub notify_one : ℕ → Notice → Me → Me
notify_one own e m =
    if not (e.network == own)
    then m
    else set_endpoint e.peer_ip e.endpoint (is_in_peer e.peer_ip m.connections) m

unfoldable pub notify_all : ℕ → List Notice → Me → Me
notify_all own [] m = m
notify_all own (e ∷ rest) m = notify_all own rest (notify_one own e m)

unfoldable pub on_notify : ℕ → Option (List Notice) → Me → Me
on_notify own none m = m
on_notify own (some entries) m = notify_all own entries m

-- An entry of the answer to a query: the address, the network of its endpoint, and the text.
pub record Answer : Type 0 where
  pub peer_ip : List ℕ
  pub network : ℕ
  pub text : ℕ

abbrev pub answer_with : (ℕ → ℕ) → List ℕ → Option ℕ → Option ℕ → Option Answer
answer_with network_of ip none text = none
answer_with network_of ip (some e) none = none
answer_with network_of ip (some e) (some text) =
    some (record { peer_ip = ip; network = network_of e; text = text })

abbrev pub or_else : Option ℕ → Option ℕ → Option ℕ
or_else none d = d
or_else (some a) d = some a

-- One address of a query. With UDP the endpoint of an unknown peer is read all the same, which
-- panics: the outer none. `raw` is the configured endpoint of the peer that asks.
unfoldable pub query_one : Bool → (ℕ → ℕ) → Option ℕ → List ℕ → Option Peer → Option (Option Answer)
query_one udp network_of raw ip none = if udp then none else some none
query_one udp network_of raw ip (some p) =
    some (answer_with network_of ip p.endpoint (if udp then p.endpoint else or_else none raw))

abbrev pub put_answer : Option (Option Answer) → Option (List Answer) → Option (List Answer)
put_answer none rest = none
put_answer (some a) none = none
put_answer (some none) (some rest) = some rest
put_answer (some (some a)) (some rest) = some (a ∷ rest)

-- The answers to a query, in the order of the question; none where the code panics.
unfoldable pub query_all : Bool → (ℕ → ℕ) → Option ℕ → List (List ℕ) → Me → Option (List Answer)
query_all udp network_of raw [] m = some []
query_all udp network_of raw (ip ∷ rest) m =
    put_answer (query_one udp network_of raw ip (is_in_peer ip m.connections))
      (query_all udp network_of raw rest m)
