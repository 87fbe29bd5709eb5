-- ===== src/Link/Recv.antt =====
-- gold/link/recv.go: wait, which takes a datagram from the network and returns a packet when it is
-- complete. `b14` stands for the base16384 decoder, and is none where the encoding is off. The two
-- caches hold their live entries: one that has expired is as good as none, since it is set again.
pub mod Replay
pub mod Gather
use wire_gold.Common.{
  ltb, leb, ◌==◌, if◌then◌else◌, ltb→lt, lt→ltb, leb→le, le→ltb, lt→leb, le→leb, ==_iff, ==_refl,
  Bool-cases, Option-cases, all_below, all_below_sound, length, get_elem?, get_or, set, take, drop,
  replicate, Some, All, length-append, length-take, length-drop, length-replicate, take-append-drop,
  take-append, drop-append, take-all, drop-all, drop-nil, drop-drop, take-add, All-append, All-take,
  All-drop, get_or-append_last, take_front, All-weaken, bit_or_step, bit_and-zero, bit_or-zero,
  bit_and_mask, bit_or_fields, bit_xor_cancel, bit_xor_comm, bit_or_assoc, bit_xor-lt, IsByte,
  AreBytes, put_uint, get_uint, length-put_uint, put_uint-AreBytes, get_uint-put_uint, get_uint-lt,
  put_uint-get_uint, get_uint-append, get_uint-take, get_or_ext, ℕ, zero, suc, ◌+◌, ◌-◌, ◌*◌, ◌/◌,
  ◌%◌, ◌^◌, ◌≤◌, ◌<◌, min, bit_and, bit_or, bit_xor, ◌≡◌, refl, sym, ap, ap₂, ◌∙◌, ◌≢◌, ◌↔◌, ◌⊎◌,
  inl, inr, Bool, true, false, not, ◌&&◌, ◌||◌, Option, none, some, List, [], ◌∷◌, ◌++◌,
  append_assoc, append-nil, arith, pow-suc, dec_lt, ℕ_discrete,
}
use wire_gold.Algo.Xor.{decode_xor}
use wire_gold.Head.Flags.{has_more}
use wire_gold.Head.Packet.{Packet, PacketBuf, dec_ttl, packet_head_len}
use wire_gold.Head.Unbox.{Result, ok, err, parse_packet_header, write_data_segment}
use wire_gold.Link.Router.{Router, is_to_me, next_hop}
use wire_gold.Link.Dispatch.{Peer, Me, ip_number, extract_peer}

-- The configured mask is an argument. `cache` is the router's, `recving` the packets that wait for
-- parts, `recved` the marks of the datagrams that have come.
pub record Host : Type 0 where
  pub host : Me
  pub router : Router
  pub cache : ℕ → Option ℕ
  pub recving : List (ℕ × PacketBuf)
  pub recved : List ℕ

pub data Waited : Type 0 where
  invalid_len bad_base14 bad_header duplicated unknown_source : Waited
  trans_refused nil_nexthop zero_ttl unexpected : Waited
  waiting_parts panicked : Waited
  forwarded : ℕ → ℕ → List ℕ → Waited
  arrived : PacketBuf → Waited

abbrev pub has_seen : ℕ → List ℕ → Bool
has_seen k [] = false
has_seen k (j ∷ rest) = k == j || has_seen k rest

-- m.recving.GetOrSet(uint16(seq), header)
abbrev pub get_or_set : ℕ → PacketBuf → List (ℕ × PacketBuf) → PacketBuf
get_or_set k header [] = header
get_or_set k header ((j, h) ∷ rest) = if k == j then h else get_or_set k header rest

abbrev pub drop_key : ℕ → List (ℕ × PacketBuf) → List (ℕ × PacketBuf)
drop_key k [] = []
drop_key k ((j, h) ∷ rest) = if k == j then drop_key k rest else (j, h) ∷ drop_key k rest

-- What the write of a part leaves: a complete packet leaves the pool, another stays in it.
unfoldable pub collected : Host → ℕ → Option (Bool × Packet × List ℕ) → Waited × Host
collected m k none = (panicked, m)
collected m k (some (true, p, buf)) =
    (arrived (record { dat = p; buffer = buf }), record m { recving = drop_key k m.recving })
collected m k (some (false, p, buf)) = (
  waiting_parts,
  record m { recving = (k, record { dat = p; buffer = buf }) ∷ drop_key k m.recving },
)

-- A part of a packet goes to the packet that waits under the low half of its sequence number.
unfoldable pub collect : ℕ → List ℕ → PacketBuf → Host → Waited × Host
collect seq bytes header m =
    let h = get_or_set (seq % 2 ^ 16) header m.recving in
    collected m (seq % 2 ^ 16) (write_data_segment h.dat bytes h.buffer)

abbrev pub whole : Host → Option (Bool × Packet × List ℕ) → Waited × Host
whole m none = (panicked, m)
whole m (some (true, p, buf)) = (arrived (record { dat = p; buffer = buf }), m)
whole m (some (false, p, buf)) = (unexpected, m)

abbrev pub remember : Option (ℕ × Option ℕ) → (ℕ → Option ℕ) → ℕ → Option ℕ
remember none cache ip = cache ip
remember (some (key, link)) cache ip = if ip == key then link else cache ip

-- A packet for another host: to the next hop, with its TTL decremented, if the peer may.
unfoldable pub hand_over : ℕ → List ℕ → Host → Option ℕ → Waited × Host
hand_over seq bytes m none = (nil_nexthop, m)
hand_over seq bytes m (some link) =
    if (dec_ttl bytes).0 then (zero_ttl, m) else (forwarded link seq (dec_ttl bytes).1, m)

unfoldable pub transfer : Peer → ℕ → List ℕ → Packet → Host → Waited × Host
transfer p seq bytes header m =
    let ip = ip_number header.dst in
    let (link, entry) = next_hop (m.cache ip) (some ip) m.router in
    if not p.allowtrans
    then (trans_refused, m)
    else hand_over seq bytes (record m { cache = remember entry m.cache }) link

unfoldable pub admit_from : Option Peer → ℕ → List ℕ → PacketBuf → Host → Waited × Host
admit_from none seq bytes header m = (unknown_source, m)
admit_from (some p) seq bytes header m =
    if not (is_to_me m.host.me m.host.subnet (ip_number header.dat.dst))
    then transfer p seq bytes header.dat m
    else if not (has_more header.dat.proto)
    then whole m (write_data_segment header.dat bytes header.buffer)
    else collect seq bytes header m

-- A datagram that is no duplicate.
unfoldable pub admit : ℕ → ℕ → ℕ → List ℕ → PacketBuf → Host → Waited × Host
admit addr now seq bytes header m =
    let (peer, host') = extract_peer addr now header.dat.src m.host in
    admit_from peer seq bytes header (record m { host = host' })

-- The mark of a datagram is uint64(seq) ^ crc.
unfoldable pub judge : ℕ → ℕ → ℕ → List ℕ → Result PacketBuf → Host → Waited × Host
judge addr now seq bytes (err e) m = (bad_header, m)
judge addr now seq bytes (ok pb) m =
    let mark = bit_xor seq pb.dat.md5h8 in
    if has_seen mark m.recved
    then (duplicated, m)
    else admit addr now seq bytes pb (record m { recved = mark ∷ m.recved })

-- The bytes that DecodeXOR returns; nil is empty.
abbrev pub or_nil : Option (List ℕ) → List ℕ
or_nil none = []
or_nil (some bytes) = bytes

unfoldable pub unmasked :
    Bool → (List ℕ → List ℕ) → PacketBuf → ℕ → ℕ → ℕ → List ℕ → Host → Waited × Host
unmasked little md5 fresh mask addr now bytes m =
    let (seq, inner) = decode_xor bytes mask in
    if ltb (length bytes) (packet_head_len + 8)
    then (invalid_len, m)
    else judge addr now seq (or_nil inner) (parse_packet_header little md5 fresh (or_nil inner)) m

abbrev pub unpacked :
    Bool → (List ℕ → List ℕ) → PacketBuf → ℕ → ℕ → ℕ → Option (List ℕ) → Host → Waited × Host
unpacked little md5 fresh mask addr now none m = (bad_base14, m)
unpacked little md5 fresh mask addr now (some bytes) m =
    unmasked little md5 fresh mask addr now bytes m

abbrev pub apply_b14 : Option (List ℕ → Option (List ℕ)) → List ℕ → Option (List ℕ)
apply_b14 none bytes = some bytes
apply_b14 (some decode) bytes = decode bytes

unfoldable pub wait :
    Option (List ℕ → Option (List ℕ))
    → Bool
    → (List ℕ → List ℕ)
    → PacketBuf
    → ℕ
    → ℕ
    → ℕ
    → List ℕ
    → Host
    → Waited × Host
wait b14 little md5 fresh mask addr now bytes m =
    if ltb (length bytes) (packet_head_len + 8)
    then (invalid_len, m)
    else unpacked little md5 fresh mask addr now (apply_b14 b14 bytes) m
