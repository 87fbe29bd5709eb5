-- ===== src/Link/Dispatch.antt =====
-- gold/link/listen.go (dispatch), gold/link/peer.go (extractPeer, IsInPeer) and gold/link/crypto.go:
-- what happens to a packet whose parts have all arrived. `md5` stands for MD5, `little` says that the
-- machine is little-endian, `blake` stands for BLAKE2b-256 and `unzstd`
-- for the zstd decoder; an endpoint is a number, and the nil endpoint is `none`.
pub mod Open
pub mod Chain
pub mod Collected
use wire_gold.Common.{
  ltb, leb, ◌==◌, if◌then◌else◌, ltb→lt, lt→ltb, leb→le, le→ltb, lt→leb, le→leb, ==_iff, ==_refl,
  Bool-cases, Option-cases, all_below, all_below_sound, length, get_elem?, get_or, set, take, drop,
  replicate, Some, All, length-append, length-take, length-drop, length-replicate, take-append-drop,
  take-append, drop-append, take-all, drop-all, drop-nil, drop-drop, take-add, All-append, All-take,
  All-drop, get_or-append_last, take_front, All-weaken, bit_or_step, bit_and-zero, bit_or-zero,
  bit_and_mask, bit_or_fields, bit_xor_cancel, bit_xor_comm, bit_or_assoc, bit_xor-lt, IsByte,
  AreBytes, put_uint, get_uint, length-put_uint, put_uint-AreBytes, get_uint-put_uint, get_uint-lt,
  put_uint-get_uint, get_uint-append, get_uint-take, get_or_ext, ℕ, zero, suc, ◌+◌, ◌-◌, ◌*◌, ◌/◌,
  ◌%◌, ◌^◌, ◌≤◌, ◌<◌, min, bit_and, bit_or, bit_xor, ◌≡◌, refl, sym, ap, ap₂, ◌∙◌, ◌≢◌, ◌↔◌, ◌⊎◌,
  inl, inr, Bool, true, false, not, ◌&&◌, ◌||◌, Option, none, some, List, [], ◌∷◌, ◌++◌,
  append_assoc, append-nil, arith, pow-suc, dec_lt, ℕ_discrete,
}
use wire_gold.Algo.Seal.{Aead, Result, ok, err, decode_aead}
use wire_gold.Algo.Hash.{same_bytes, is_valid_blake2b_hash8}
use wire_gold.Head.Flags.{proto}
use wire_gold.Head.Header.{pre_crc64}
use wire_gold.Head.Packet.{Packet, size, additional_data, cipher_index}
use wire_gold.Link.Router.{IpNet, accept, is_to_me}

pub record Peer : Type 0 where
  pub keys : ℕ → Option Aead
  pub allowedips : List IpNet
  pub usezstd : Bool
  pub allowtrans : Bool
  pub endpoint : Option ℕ
  pub lastalive : ℕ

-- The interface: its address, its network, and the peers by their addresses.
pub record Me : Type 0 where
  pub me : ℕ
  pub subnet : IpNet
  pub connections : List (List ℕ × Peer)

-- The number of an address, its first byte highest.
abbrev pub ip_number : List ℕ → ℕ
ip_number [] = 0
ip_number (b ∷ bs) = b * 256 ^ length bs + ip_number bs

unfoldable pub is_in_peer : List ℕ → List (List ℕ × Peer) → Option Peer
is_in_peer ip [] = none
is_in_peer ip ((key, p) ∷ rest) = if same_bytes ip key then some p else is_in_peer ip rest

abbrev pub set_peer : List ℕ → Peer → List (List ℕ × Peer) → List (List ℕ × Peer)
set_peer ip p [] = []
set_peer ip p ((key, q) ∷ rest) =
    let others = set_peer ip p rest in
    if same_bytes ip key then (key, p) ∷ rest else (key, q) ∷ others

-- !p.endpoint.Equal(addr), or the endpoint is nil
abbrev pub is_elsewhere : Option ℕ → ℕ → Bool
is_elsewhere none addr = true
is_elsewhere (some e) addr = not (e == addr)

-- Both branches of the test on tcp set the endpoint.
abbrev pub heard : ℕ → ℕ → Peer → Peer
heard addr now p = record p {
  endpoint = if is_elsewhere p.endpoint addr then some addr else p.endpoint;
  lastalive = now;
}

-- A known peer takes the address as its endpoint; `now` is the clock.
unfoldable pub extract_peer : ℕ → ℕ → List ℕ → Me → Option Peer × Me
extract_peer addr now srcip m = elim (is_in_peer srcip m.connections) [
  | none ↦ (none, m)
  | some p ↦ (
    some (heard addr now p),
    record m { connections = set_peer srcip (heard addr now p) m.connections },
  )
]

-- The result is none where the code panics: a link with a first key has all of them.
unfoldable pub decode : Peer → ℕ → ℕ → List ℕ → Option (Result (List ℕ))
decode l teatype additional b =
    if length b == 0 || leb 32 teatype then some (ok []) else elim (l.keys 0) [
      | none ↦ some (ok b)
      | some first ↦ elim (l.keys teatype) [
        | none ↦ none
        | some aead ↦ some (decode_aead aead additional b)
      ]
    ]

pub data Drop : Type 0 where
  smaller_than_declared unknown_peer source_refused not_to_me : Drop
  decode_error under_8_bytes invalid_hash invalid_zstd unsupported_proto : Drop

pub data Verdict : Type 0 where
  dropped : Drop → Verdict
  panics : Verdict
  handled : ℕ → List ℕ → Verdict

abbrev pub call_handler : (ℕ → Bool) → ℕ → Option (List ℕ) → Verdict
call_handler registered pr none = dropped invalid_zstd
call_handler registered pr (some bytes) =
    if registered pr then handled pr bytes else dropped unsupported_proto

-- From the decoded bytes to the call of the handler.
unfoldable pub deliver :
    Bool
    → (List ℕ → List ℕ)
    → (List ℕ → List ℕ)
    → (List ℕ → Option (List ℕ))
    → (ℕ → Bool)
    → Peer
    → Packet
    → Option (Result (List ℕ))
    → Verdict
deliver little md5 blake unzstd registered l header none = panics
deliver little md5 blake unzstd registered l header (some (err e)) = dropped decode_error
deliver little md5 blake unzstd registered l header (some (ok bytes)) =
    let body = if l.usezstd then unzstd (drop 8 bytes) else some (drop 8 bytes) in
    if ltb (length bytes) 8
    then dropped under_8_bytes
    else if not (is_valid_blake2b_hash8 blake (pre_crc64 little md5 header) bytes)
    then dropped invalid_hash
    else call_handler registered (proto header.proto) body

unfoldable pub dispatch_from :
    Bool
    → (List ℕ → List ℕ)
    → (List ℕ → List ℕ)
    → (List ℕ → Option (List ℕ))
    → (ℕ → Bool)
    → Me
    → Packet
    → List ℕ
    → Option Peer
    → Verdict
dispatch_from little md5 blake unzstd registered m header body none = dropped unknown_peer
dispatch_from little md5 blake unzstd registered m header body (some p) =
    if not (accept p.allowedips (ip_number header.src))
    then dropped source_refused
    else if not (is_to_me m.me m.subnet (ip_number header.dst))
    then dropped not_to_me
    else deliver little md5 blake unzstd registered p header
        (decode p (cipher_index header) (additional_data header) body)

-- dispatch: what becomes of the packet, and the interface afterwards.
unfoldable pub dispatch :
    Bool
    → (List ℕ → List ℕ)
    → (List ℕ → List ℕ)
    → (List ℕ → Option (List ℕ))
    → (ℕ → Bool)
    → ℕ
    → ℕ
    → Packet
    → List ℕ
    → Me
    → Verdict × Me
dispatch little md5 blake unzstd registered addr now header body m =
    let (peer, after) = extract_peer addr now header.src m in
    if ltb (length body) (size header)
    then (dropped smaller_than_declared, m)
    else (dispatch_from little md5 blake unzstd registered m header body peer, after)
