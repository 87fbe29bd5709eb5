-- ===== src/Examples/Peers.antt =====
-- AddPeer at concrete inputs.
use wire_gold.Common.{replicate, ℕ, ◌≡◌, refl, ◌≢◌, false, Option, none, some, List, [], ◌∷◌, arith}
use wire_gold.Algo.Key.{mix_loop, mix_keys}
use wire_gold.Algo.Seal.{Aead, Result}
use wire_gold.Link.Router.{IpNet, Router, default_net, set_item}
use wire_gold.Link.Dispatch.{Peer, Me, is_in_peer, decode}
use wire_gold.Link.AddPeer.{
  Allowed, plain, x_marked, PeerConfig, keys_of, only_first, window_keys, allowed_nets, routed_nets,
  add_routes, new_peer, add_peer,
}
use wire_gold.Link.AddPeer.Keys.{keys_of-decode, single_key_panics}
use wire_gold.Link.AddPeer.Table.{add_peer_twice, add_peer_unregistered}
use wire_gold.Examples.Cases.{toy_aead}

abbrev new_x : List ℕ → Aead
new_x k = toy_aead

abbrev net : IpNet
net = record { base = 167772160; len = 24 }

abbrev config : Allowed → PeerConfig
config a = record {
  peer_ip = 10 ∷ 0 ∷ 0 ∷ 2 ∷ [];
  endpoint = none;
  allowed = a ∷ [];
  shared = none;
  preshared = none;
  mtu = 1400;
  allow_trans = false;
  use_zstd = false;
}

abbrev me : Me
me = record { me = 167772161; subnet = net; connections = [] }

abbrev routes : Router
routes = record { table = λ n. none; list = default_net ∷ [] }

abbrev peer : Peer
peer = new_peer none (config (plain (some net))) (λ i. none) (net ∷ [])

abbrev after : Me
after = record me { connections = ((10 ∷ 0 ∷ 0 ∷ 2 ∷ []), peer) ∷ [] }

unknown : is_in_peer (10 ∷ 0 ∷ 0 ∷ 2 ∷ []) me.connections ≡ none
unfolding is_in_peer
unknown = refl

has_route : routed_nets (plain (some net) ∷ []) ≢ []
unfolding routed_nets
has_route e = cc

no_route : routed_nets (x_marked (some net) ∷ []) ≡ []
unfolding routed_nets
no_route = refl

added :
    add_peer new_x (config (plain (some net))) me routes
    ≡ some (peer, after, set_item net (some 167772162) routes)
unfolding add_peer is_in_peer keys_of allowed_nets routed_nets add_routes
added = refl

add_peer_twice_example :
    add_peer new_x (config (x_marked none)) after (set_item net (some 167772162) routes)
    ≡ some (peer, after, set_item net (some 167772162) routes)
add_peer_twice_example =
    add_peer_twice new_x (config (plain (some net))) (config (x_marked none)) me routes peer after
      (set_item net (some 167772162) routes) unknown has_route added refl

added_unrouted :
    add_peer new_x (config (x_marked (some net))) me routes
    ≡ some (new_peer none (config (x_marked (some net))) (λ i. none) (net ∷ []), me, routes)
unfolding add_peer is_in_peer keys_of allowed_nets routed_nets add_routes
added_unrouted = refl

add_peer_unregistered_example :
    (me ≡ me) × (routes ≡ routes) × (is_in_peer (10 ∷ 0 ∷ 0 ∷ 2 ∷ []) me.connections ≡ none)
add_peer_unregistered_example =
    add_peer_unregistered new_x (config (x_marked (some net))) me routes
      (new_peer none (config (x_marked (some net))) (λ i. none) (net ∷ [])) me routes unknown
      no_route added_unrouted

abbrev secret : List ℕ
secret = replicate 32 7

abbrev keyed : (ℕ → Option Aead) → Peer
keyed keys = record peer { keys = keys }

mixed :
    keys_of new_x (some secret) (some secret) ≡ some (window_keys new_x (mix_loop secret 0 secret))
unfolding keys_of mix_keys
mixed = refl

keys_of-decode_example :
    (r : Result (List ℕ)) × (decode
        (keyed (window_keys new_x (mix_loop secret 0 secret)))
        5
        1
        (1 ∷ 2 ∷ [])
      ≡ some r)
keys_of-decode_example =
    keys_of-decode new_x secret secret (keyed (window_keys new_x (mix_loop secret 0 secret))) 5 1
      (1 ∷ 2 ∷ []) refl refl mixed

alone : keys_of new_x (some secret) none ≡ some (only_first new_x secret)
unfolding keys_of
alone = refl

single_key_panics_example : decode (keyed (only_first new_x secret)) 5 1 (1 ∷ 2 ∷ []) ≡ none
single_key_panics_example =
    single_key_panics new_x secret (keyed (only_first new_x secret)) 5 1 (1 ∷ 2 ∷ []) refl alone
      (omega arith) (omega arith) (omega arith)
