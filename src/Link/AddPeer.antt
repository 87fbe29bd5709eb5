-- ===== src/Link/AddPeer.antt =====
-- gold/link/peer.go: AddPeer. The private key exchange, the ciphers and the parsing of addresses are
-- libraries' and so arguments; a link goes into the table of routes under the number of its address.
pub mod Keys
pub mod Table
use wire_gold.Common.{
  ltb, leb, ◌==◌, if◌then◌else◌, ltb→lt, lt→ltb, leb→le, le→ltb, lt→leb, le→leb, ==_iff, ==_refl,
  Bool-cases, Option-cases, all_below, all_below_sound, length, get_elem?, get_or, set, take, drop,
  replicate, Some, All, length-append, length-take, length-drop, length-replicate, take-append-drop,
  take-append, drop-append, take-all, drop-all, drop-nil, drop-drop, take-add, All-append, All-take,
  All-drop, get_or-append_last, take_front, All-weaken, bit_or_step, bit_and-zero, bit_or-zero,
  bit_and_mask, bit_or_fields, bit_xor_cancel, bit_xor_comm, bit_or_comm, bit_or_assoc, bit_xor-lt,
  IsByte, AreBytes, put_uint, get_uint, length-put_uint, put_uint-AreBytes, get_uint-put_uint,
  get_uint-lt, put_uint-get_uint, get_uint-append, get_uint-take, get_or_ext, ℕ, zero, suc, ◌+◌,
  ◌-◌, ◌*◌, ◌/◌, ◌%◌, ◌^◌, ◌≤◌, ◌<◌, min, bit_and, bit_or, bit_xor, ◌≡◌, refl, sym, ap, ap₂, ◌∙◌,
  ◌≢◌, ◌↔◌, ◌⊎◌, inl, inr, Bool, true, false, not, ◌&&◌, ◌||◌, Option, none, some, List, [], ◌∷◌,
  ◌++◌, append_assoc, append-nil, arith, pow-suc, dec_lt, ℕ_discrete,
}
use wire_gold.Algo.Key.{
  mix_keys, reverse_bits, reverse8, expand_first, expand_second, expandkeyunit, mix_loop,
}
use wire_gold.Algo.Seal.{
  Aead, Error, Result, encode_aead, length-encode_aead, decode_aead, decode_aead-encode_aead,
  cipher_text_too_short, open_failed, ok, err,
}
use wire_gold.Link.Router.{
  IpNet, Router, set_item, shift_right, contains, same_net, update, accept, default_net, set_last,
  set_default, is_subnet_bcast, is_to_me, first_match, routed, next_hop, place, write_key,
}
use wire_gold.Link.Dispatch.{
  Peer, Me, ip_number, is_in_peer, set_peer, is_elsewhere, heard, extract_peer, decode, Drop,
  Verdict, call_handler, deliver, dispatch_from, dispatch, smaller_than_declared, unknown_peer,
  source_refused, not_to_me, decode_error, under_8_bytes, invalid_hash, invalid_zstd,
  unsupported_proto, dropped, panics, handled,
}

-- An entry of AllowedIPs: nothing, or a network with its mark; `x` keeps it out of the routes. A
-- text that is no network is none.
pub data Allowed : Type 0 where
  blank : Allowed
  plain x_marked y_marked : Option IpNet → Allowed

-- `endpoint` is none for an empty text, and what p2p.NewEndPoint makes of another one, none where it
-- returns an error.
pub record PeerConfig : Type 0 where
  pub peer_ip : List ℕ
  pub endpoint : Option (Option ℕ)
  pub allowed : List Allowed
  pub shared : Option (List ℕ)
  pub preshared : Option (List ℕ)
  pub mtu : ℕ
  pub allow_trans : Bool
  pub use_zstd : Bool

abbrev pub key_bytes : Option (List ℕ) → List ℕ
key_bytes none = []
key_bytes (some k) = k

-- l.keys[i] = NewX(mixk[i : i+32]) for i below 32.
abbrev pub window_keys : (List ℕ → Aead) → List ℕ → ℕ → Option Aead
window_keys new_x mixk i = if ltb i 32 then some (new_x (take 32 (drop i mixk))) else none

abbrev pub only_first : (List ℕ → Aead) → List ℕ → ℕ → Option Aead
only_first new_x k i = if i == 0 then some (new_x k) else none

abbrev pub mixed_or_panic : (List ℕ → Aead) → Option (List ℕ) → Option (ℕ → Option Aead)
mixed_or_panic new_x none = none
mixed_or_panic new_x (some mixk) = some (window_keys new_x mixk)

-- The keys of the link: none without a shared key, one with it, and 32 with a preshared key.
unfoldable pub keys_of :
    (List ℕ → Aead) → Option (List ℕ) → Option (List ℕ) → Option (ℕ → Option Aead)
keys_of new_x shared preshared =
    let k = key_bytes shared in
    let p = key_bytes preshared in
    if not (length k == 32)
    then some (λ i. none)
    else if length p == 32
    then mixed_or_panic new_x (mix_keys k p)
    else some (only_first new_x k)

-- The networks that the link accepts; none where parsing panics.
abbrev pub put_net : Option IpNet → Option (List IpNet) → Option (List IpNet)
put_net none nets = none
put_net (some n) none = none
put_net (some n) (some nets) = some (n ∷ nets)

unfoldable pub allowed_nets : List Allowed → Option (List IpNet)
allowed_nets [] = some []
allowed_nets (blank ∷ rest) = allowed_nets rest
allowed_nets (plain n ∷ rest) = put_net n (allowed_nets rest)
allowed_nets (x_marked n ∷ rest) = put_net n (allowed_nets rest)
allowed_nets (y_marked n ∷ rest) = put_net n (allowed_nets rest)

-- The networks that get a route.
unfoldable pub routed_nets : List Allowed → List IpNet
routed_nets [] = []
routed_nets (blank ∷ rest) = routed_nets rest
routed_nets (x_marked n ∷ rest) = routed_nets rest
routed_nets (plain none ∷ rest) = routed_nets rest
routed_nets (plain (some n) ∷ rest) = n ∷ routed_nets rest
routed_nets (y_marked none ∷ rest) = routed_nets rest
routed_nets (y_marked (some n) ∷ rest) = n ∷ routed_nets rest

unfoldable pub add_routes : ℕ → List IpNet → Router → Router
add_routes link [] r = r
add_routes link (n ∷ nets) r = add_routes link nets (set_item n (some link) r)

-- l.endpoint, or none where the code panics.
abbrev pub endpoint_of : Option (Option ℕ) → Option (Option ℕ)
endpoint_of none = some none
endpoint_of (some none) = none
endpoint_of (some (some addr)) = some (some addr)

abbrev pub new_peer : Option ℕ → PeerConfig → (ℕ → Option Aead) → List IpNet → Peer
new_peer endpoint cfg keys nets = record {
  keys = keys;
  allowedips = nets;
  usezstd = cfg.use_zstd;
  allowtrans = cfg.allow_trans;
  endpoint = endpoint;
  lastalive = 0;
}

-- The peer is registered along with its first route.
abbrev pub register : List ℕ → Peer → List IpNet → Me → Me
register ip p [] m = m
register ip p (n ∷ nets) m = record m { connections = (ip, p) ∷ m.connections }

abbrev pub joined :
    PeerConfig
    → Option (ℕ → Option Aead)
    → Option (Option ℕ)
    → Option (List IpNet)
    → Me
    → Router
    → Option (Peer × Me × Router)
joined cfg none endpoint nets m r = none
joined cfg (some keys) none nets m r = none
joined cfg (some keys) (some endpoint) none m r = none
joined cfg (some keys) (some endpoint) (some nets) m r =
    let p = new_peer endpoint cfg keys nets in
    some (
      p,
      register cfg.peer_ip p (routed_nets cfg.allowed) m,
      add_routes (ip_number cfg.peer_ip) (routed_nets cfg.allowed) r,
    )

abbrev pub known_or :
    (List ℕ → Aead) → PeerConfig → Me → Router → Option Peer → Option (Peer × Me × Router)
known_or new_x cfg m r (some p) = some (p, m, r)
known_or new_x cfg m r none =
    if cfg.mtu == 0
    then none
    else joined cfg (keys_of new_x cfg.shared cfg.preshared) (endpoint_of cfg.endpoint)
        (allowed_nets cfg.allowed) m r

-- AddPeer: a peer that is known is returned as it is. The result is none where the code panics.
unfoldable pub add_peer : (List ℕ → Aead) → PeerConfig → Me → Router → Option (Peer × Me × Router)
add_peer new_x cfg m r = known_or new_x cfg m r (is_in_peer cfg.peer_ip m.connections)
