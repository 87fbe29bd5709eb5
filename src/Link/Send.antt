-- ===== src/Link/Send.antt =====
-- gold/link/send.go, with randkeyidx and xorenc of gold/link/crypto.go and incgetsndcnt of
-- gold/link/link.go: what a link puts on the network for a packet. The random numbers are arguments,
-- `b14` is the base16384 encoder where the encoding is on, and the calls that `go` starts are listed
-- in the order of the fragments.
pub mod Masked
use wire_gold.Common.{
  ltb, leb, ◌==◌, if◌then◌else◌, ltb→lt, lt→ltb, leb→le, le→ltb, lt→leb, le→leb, ==_iff, ==_refl,
  Bool-cases, Option-cases, all_below, all_below_sound, length, get_elem?, get_or, set, take, drop,
  replicate, Some, All, length-append, length-take, length-drop, length-replicate, take-append-drop,
  take-append, drop-append, take-all, drop-all, drop-nil, drop-drop, take-add, All-append, All-take,
  All-drop, get_or-append_last, take_front, All-weaken, bit_or_step, bit_and-zero, bit_or-zero,
  bit_and_mask, bit_or_fields, bit_xor_cancel, bit_xor_comm, bit_or_assoc, bit_xor-lt, IsByte,
  AreBytes, put_uint, get_uint, length-put_uint, put_uint-AreBytes, get_uint-put_uint, get_uint-lt,
  put_uint-get_uint, get_uint-append, get_uint-take, get_or_ext, ℕ, zero, suc, ◌+◌, ◌-◌, ◌*◌, ◌/◌,
  ◌%◌, ◌^◌, ◌≤◌, ◌<◌, min, bit_and, bit_or, bit_xor, ◌≡◌, refl, sym, ap, ap₂, ◌∙◌, ◌≢◌, ◌↔◌, ◌⊎◌,
  inl, inr, Bool, true, false, not, ◌&&◌, ◌||◌, Option, none, some, List, [], ◌∷◌, ◌++◌,
  append_assoc, append-nil, arith, pow-suc, dec_lt, ℕ_discrete,
}
use wire_gold.Algo.Seal.{Aead}
use wire_gold.Algo.Xor.{encode_xor}
use wire_gold.Head.Packet.{PacketBuf}
use wire_gold.Head.Builder.{
  new_packet_builder, set_proto, set_ttl, set_src, set_dst, with_data, zstd, hash, seal, plain,
}
use wire_gold.Head.Builder.Split.{
  Parts, parts, divide_by_zero, negative_make, negative_slice, split, build_packet_from_bytes,
}

-- The fields of a Link, and of its Me, that sending reads; `conn` says that the socket is open.
pub record Outlet : Type 0 where
  pub peerip : List ℕ
  pub endpoint : Option ℕ
  pub keys : ℕ → Option Aead
  pub usezstd : Bool
  pub doublepacket : Bool
  pub mtu : ℕ
  pub mturandomrange : ℕ
  pub sendcount : ℕ
  pub me_ip : List ℕ
  pub srcport : ℕ
  pub dstport : ℕ
  pub mask : ℕ
  pub b14 : Option (List ℕ → List ℕ)
  pub conn : Bool

-- What one call of WritePacket draws: the key, the cut of the mtu, the number and the nonce of the
-- packet, the high half of each sequence number, and four bytes for each mask.
pub record Draws : Type 0 where
  pub key_index : ℕ
  pub mtu_cut : ℕ
  pub randn : ℕ
  pub nonce : List ℕ
  pub seq_high : ℕ → ℕ
  pub mask_bytes : ℕ → List ℕ

-- The code outside the repository that building a packet calls.
pub record Codecs : Type 0 where
  pub little : Bool
  pub md5 : List ℕ → List ℕ
  pub blake : List ℕ → List ℕ
  pub encode_zstd : List ℕ → List ℕ
  pub slice : ℕ → ℕ → List ℕ → List ℕ
  pub fresh : PacketBuf

abbrev pub is_none {ℓ} : {A : Type ℓ} → Option A → Bool
is_none none = true
is_none (some a) = false

unfoldable pub randkeyidx : Outlet → ℕ → ℕ
randkeyidx l drawn = if is_none (l.keys 1) then 0 else drawn

-- Two drawn bytes above the count.
unfoldable pub randseq : ℕ → ℕ → ℕ
randseq high i = high * 2 ^ 16 + i

abbrev pub packed : Option (List ℕ → List ℕ) → List ℕ → List ℕ
packed none bytes = bytes
packed (some encode) bytes = encode bytes

-- One datagram to the endpoint, if there is one and the socket is open.
unfoldable pub write2peer1 : Outlet → List ℕ → List ℕ → ℕ → List (ℕ × List ℕ)
write2peer1 l drawn bytes seq = elim l.endpoint [
  | none ↦ []
  | some ep ↦ if l.conn then (ep, packed l.b14 (encode_xor drawn bytes l.mask seq)) ∷ [] else []
]

unfoldable pub write2peer : Outlet → List ℕ → List ℕ → List ℕ → ℕ → List (ℕ × List ℕ)
write2peer l first second bytes seq =
    if l.doublepacket
    then write2peer1 l first bytes seq ++ write2peer1 l second bytes seq
    else write2peer1 l second bytes seq

-- The mtu is a uint16.
unfoldable pub drawn_mtu : Outlet → ℕ → ℕ
drawn_mtu l cut = if ltb 0 l.mturandomrange then (l.mtu + 65536 - cut) % 65536 else l.mtu

-- NewPacketBuilder().Src(...).Dst(...).Proto(proto).TTL(ttl).With(data), Zstd() and Hash().
unfoldable pub build : Codecs → Outlet → ℕ → ℕ → List ℕ → ℕ → PacketBuf
build c l randn pr bytes ttl =
    let start = set_src l.me_ip l.srcport (new_packet_builder c.fresh randn) in
    let headed = set_ttl ttl (set_proto pr (set_dst l.peerip l.dstport start)) in
    let filled = with_data c.little c.md5 bytes headed in
    hash c.blake (if l.usezstd then zstd c.encode_zstd filled else filled)

-- Plain without a first key, sealed with one; none where the code panics on a missing key.
unfoldable pub close_body : Outlet → Draws → ℕ → PacketBuf → Option PacketBuf
close_body l d sndcnt pb =
    let teatype = randkeyidx l d.key_index in
    elim (l.keys 0) [
      | none ↦ some (plain teatype (bit_and sndcnt 0x07ff) pb)
      | some first ↦ elim (l.keys teatype) [
        | none ↦ none
        | some aead ↦ some (seal aead d.nonce teatype (bit_and sndcnt 0x07ff) pb)
      ]
    ]

-- The fragments, from number i on, to the peer.
unfoldable pub send_parts : Codecs → Outlet → Draws → ℕ → List PacketBuf → ℕ → List (ℕ × List ℕ)
send_parts c l d sndcnt [] i = []
send_parts c l d sndcnt (pb ∷ rest) i =
    write2peer l (d.mask_bytes (2 * i)) (d.mask_bytes (2 * i + 1))
      (build_packet_from_bytes c.little c.md5 pb) (randseq (d.seq_high i) sndcnt)
    ++ send_parts c l d sndcnt rest (i + 1)

abbrev pub send_all : Codecs → Outlet → Draws → ℕ → Parts → Option (List (ℕ × List ℕ))
send_all c l d sndcnt (parts pbs) = some (send_parts c l d sndcnt pbs 0)
send_all c l d sndcnt divide_by_zero = none
send_all c l d sndcnt negative_make = none
send_all c l d sndcnt negative_slice = none

abbrev pub split_and_send :
    Codecs → Outlet → Draws → ℕ → Option PacketBuf → Option (List (ℕ × List ℕ))
split_and_send c l d sndcnt none = none
split_and_send c l d sndcnt (some pb) =
    send_all c l d sndcnt (split c.slice (drawn_mtu l d.mtu_cut) false pb)

-- WritePacket: the datagrams, or none where the code panics, and the link with its count advanced.
unfoldable pub write_packet :
    Codecs → Outlet → Draws → ℕ → List ℕ → ℕ → Option (List (ℕ × List ℕ)) × Outlet
write_packet c l d pr bytes ttl =
    let sndcnt = (l.sendcount + 1) % 2 ^ 16 in
    (
      split_and_send c l d sndcnt (close_body l d sndcnt (build c l d.randn pr bytes ttl)),
      record l { sendcount = l.sendcount + 1 },
    )
