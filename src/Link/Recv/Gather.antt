-- ===== src/Link/Recv/Gather.antt =====
-- gold/link/recv.go: the datagrams of one packet, passed to wait one after another.
pub mod Parts
pub mod Whole
pub mod Sent
use wire_gold.Common.{
  ltb, leb, ◌==◌, if◌then◌else◌, ltb→lt, lt→ltb, leb→le, le→ltb, lt→leb, le→leb, ==_iff, ==_refl,
  Bool-cases, Option-cases, all_below, all_below_sound, length, get_elem?, get_or, set, take, drop,
  replicate, Some, All, length-append, length-take, length-drop, length-replicate, take-append-drop,
  take-append, drop-append, take-all, drop-all, drop-nil, drop-drop, take-add, All-append, All-take,
  All-drop, get_or-append_last, take_front, All-weaken, bit_or_step, bit_and-zero, bit_or-zero,
  bit_and_mask, bit_or_fields, bit_xor_cancel, bit_xor_comm, bit_or_assoc, bit_xor-lt, IsByte,
  AreBytes, put_uint, get_uint, length-put_uint, put_uint-AreBytes, get_uint-put_uint, get_uint-lt,
  put_uint-get_uint, get_uint-append, get_uint-take, get_or_ext, ℕ, zero, suc, ◌+◌, ◌-◌, ◌*◌, ◌/◌,
  ◌%◌, ◌^◌, ◌≤◌, ◌<◌, min, bit_and, bit_or, bit_xor, ◌≡◌, refl, sym, ap, ap₂, ◌∙◌, ◌≢◌, ◌↔◌, ◌⊎◌,
  inl, inr, Bool, true, false, not, ◌&&◌, ◌||◌, Option, none, some, List, [], ◌∷◌, ◌++◌,
  append_assoc, append-nil, arith, pow-suc, dec_lt, ℕ_discrete,
}
use mathlib.Core.List.{map, Permᴰ}
use mathlib.Core.Path.{subst}
use wire_gold.Algo.Hash.{
  same_bytes, same_bytes_refl, blake2b_hash8, is_valid_blake2b_hash8, IsBlake, blake2b_hash8-lt,
  is_valid-blake2b_hash8,
}
use wire_gold.Algo.Xor.{
  decode_xor, encode_xor_len, xor_batches, xor_tail, encode_xor, unxor_batches, decoded_part,
  read_plain,
}
use wire_gold.Head.Flags.{
  has_more, hasmorebit, nofragbit, topbit, impossiblebit, flagsbit, protobit, proto_hello,
  proto_notify, proto_query, proto_data, proto_trans, proto_top, proto, no_frag, is_valid,
}
use wire_gold.Head.Packet.{
  Packet, PacketBuf, packet_head_pre_crc_idx, packet_head_no_crc_len, packet_head_len, ttloffset,
  additional_data, cipher_index, size, has_finished, clear_ttl, dec_ttl,
}
use wire_gold.Head.Unbox.{
  ok, parse_packet_header, Error, Result, proto_byte, ttl_byte, read_packet, bad_offset, header_crc,
  open_body, set_zero_offset, copy_at, write_data_segment, data_len_le_header, invalid_proto,
  invalid_offset, bad_crc_checksum, err,
}
use wire_gold.Head.Unbox.Read.{
  IsDigest, crc_of, IsPacket, header_bytes, length-memory_image, length-header_bytes,
  read_packet-header_bytes, header_crc-header_bytes,
}
use wire_gold.Link.Router.{
  is_to_me, IpNet, Router, shift_right, contains, same_net, update, accept, default_net, set_last,
  set_default, is_subnet_bcast, first_match, routed, next_hop, place, write_key, set_item,
}
use wire_gold.Link.Dispatch.{
  Peer, ip_number, extract_peer, is_in_peer, set_peer, heard, Me, is_elsewhere, decode, Drop,
  Verdict, call_handler, deliver, dispatch_from, dispatch, smaller_than_declared, unknown_peer,
  source_refused, not_to_me, decode_error, under_8_bytes, invalid_hash, invalid_zstd,
  unsupported_proto, dropped, panics, handled,
}
use wire_gold.Link.Recv.{
  Host, Waited, wait, waiting_parts, arrived, judge, collect, collected, has_seen, get_or_set,
  drop_key, apply_b14, whole, remember, hand_over, transfer, admit_from, admit, or_nil, unmasked,
  unpacked, invalid_len, bad_base14, bad_header, duplicated, unknown_source, trans_refused,
  nil_nexthop, zero_ttl, unexpected, panicked, forwarded,
}
use wire_gold.Link.Recv.Replay.{wait-judged}

-- A datagram that comes: from where, when, its bytes, and the sequence number and the fragment
-- that it carries.
pub record Parcel : Type 0 where
  pub addr : ℕ
  pub now : ℕ
  pub bytes : List ℕ
  pub seq : ℕ
  pub part : PacketBuf

-- How wait is set up: the decoder, the byte order, MD5, the packet of the pool and the mask.
pub record Setup : Type 0 where
  pub b14 : Option (List ℕ → Option (List ℕ))
  pub little : Bool
  pub md5 : List ℕ → List ℕ
  pub fresh : PacketBuf
  pub mask : ℕ

abbrev pub wait_one : Setup → Parcel → Host → Waited × Host
wait_one s d m = wait s.b14 s.little s.md5 s.fresh s.mask d.addr d.now d.bytes m

-- What wait returns for each.
abbrev pub wait_all : Setup → List Parcel → Host → List Waited
wait_all s [] m = []
wait_all s (d ∷ ds) m = (wait_one s d m).0 ∷ wait_all s ds (wait_one s d m).1

-- All but the last wait for more parts, and the last gives the packet.
abbrev pub last_arrives : PacketBuf → List Parcel → List Waited
last_arrives pb [] = []
last_arrives pb (d ∷ []) = arrived pb ∷ []
last_arrives pb (d ∷ e ∷ ds) = waiting_parts ∷ last_arrives pb (e ∷ ds)

-- The mark under which a datagram is remembered.
abbrev pub mark_of : (List ℕ → List ℕ) → Parcel → ℕ
mark_of md5 d = bit_xor d.seq (crc_of md5 d.part.dat)

-- Each mark is new when its datagram comes.
abbrev pub AreNew : (List ℕ → List ℕ) → List ℕ → List Parcel → Type 0
AreNew md5 seen [] = Unit {0}
AreNew md5 seen (d ∷ ds) =
    (has_seen (mark_of md5 d) seen ≡ false) × AreNew md5 (mark_of md5 d ∷ seen) ds

-- The receiver finds this in the datagram, under a sequence number with that low half.
abbrev pub Carried : Setup → ℕ → (PacketBuf → List ℕ) → Parcel → Type 0
Carried s k build d =
    (40 ≤ length d.bytes)
    × (d.seq % 2 ^ 16 ≡ k)
    × ((inner : List ℕ) × (40 ≤ length inner)
        × (apply_b14 s.b14 d.bytes ≡ some inner)
        × (decode_xor inner s.mask ≡ (d.seq, some (build d.part))))

-- A known sender, and this host as the receiver.
abbrev pub IsKnown : Packet → Host → Type 0
IsKnown base m =
    ((p : Peer) × (is_in_peer base.src m.host.connections ≡ some p))
    × (is_to_me m.host.me m.host.subnet (ip_number base.dst) ≡ true)

pub is_in_peer-set_peer :
    (ip : List ℕ) (p q : Peer) (conns : List (List ℕ × Peer))
    → is_in_peer ip conns ≡ some p
    → is_in_peer ip (set_peer ip q conns) ≡ some q
unfolding is_in_peer
is_in_peer-set_peer ip p q [] h = absurd (cc)
is_in_peer-set_peer ip p q ((key, r) ∷ rest) h = elim (Bool-cases (same_bytes ip key)) [
  | inl same ↦ rw (same, same) refl
  | inr other ↦
      rw (other, other)
        (is_in_peer-set_peer ip p q rest
          (ap (λ (b : Bool). if b then some r else is_in_peer ip rest) (sym other) ∙ h))
]

-- The host after the tests on a datagram of a known peer.
abbrev pub noted : List ℕ → Peer → ℕ → Parcel → Host → Host
noted src p mark d m = record m {
  recved = mark ∷ m.recved;
  host = record m.host { connections = set_peer src (heard d.addr d.now p) m.host.connections };
}

extract_peer-known :
    (addr now : ℕ) (ip : List ℕ) (p : Peer) (m : Me)
    → is_in_peer ip m.connections ≡ some p
    → extract_peer addr now ip m ≡ (
      some (heard addr now p),
      record m { connections = set_peer ip (heard addr now p) m.connections },
    )
unfolding extract_peer
extract_peer-known addr now ip p m h =
    ap
      (λ (o : Option Peer). elim o [
        | none ↦ (none, m)
        | some q ↦ (
          some (heard addr now q),
          record m { connections = set_peer ip (heard addr now q) m.connections },
        )
      ])
      h

-- A new datagram of a known peer for this host, with more to come, goes to its packet.
pub judge-collect :
    (d : Parcel) (bytes : List ℕ) (pb : PacketBuf) (p : Peer) (m : Host)
    → has_seen (bit_xor d.seq pb.dat.md5h8) m.recved ≡ false
    → is_in_peer pb.dat.src m.host.connections ≡ some p
    → is_to_me m.host.me m.host.subnet (ip_number pb.dat.dst) ≡ true
    → has_more pb.dat.proto ≡ true
    → judge d.addr d.now d.seq bytes (ok pb) m
      ≡ collect d.seq bytes pb (noted pb.dat.src p (bit_xor d.seq pb.dat.md5h8) d m)
unfolding judge admit admit_from
judge-collect d bytes pb p m new known mine more =
    let mark = bit_xor d.seq pb.dat.md5h8 in
    let next = record m { recved = mark ∷ m.recved } in
    let after = noted pb.dat.src p mark d m in
    ap (λ (t : Bool). if t then (duplicated, m) else admit d.addr d.now d.seq bytes pb next) new
    ∙ ap (λ (r : Option Peer × Me). admit_from r.0 d.seq bytes pb (record next { host = r.1 }))
        (extract_peer-known d.addr d.now pb.dat.src p m.host known)
    ∙ ap
        (λ (t : Bool).
          if not t
          then transfer (heard d.addr d.now p) d.seq bytes pb.dat after
          else if not (has_more pb.dat.proto)
          then whole after (write_data_segment pb.dat bytes pb.buffer)
          else collect d.seq bytes pb after)
        mine
    ∙ ap
        (λ (t : Bool).
          if not t
          then whole after (write_data_segment pb.dat bytes pb.buffer)
          else collect d.seq bytes pb after)
        more

pub get_or_set-here :
    (k : ℕ) (pb st : PacketBuf) (rest : List (ℕ × PacketBuf))
    → get_or_set k pb ((k, st) ∷ rest) ≡ st
get_or_set-here k pb st rest = rw (==_refl k) refl
