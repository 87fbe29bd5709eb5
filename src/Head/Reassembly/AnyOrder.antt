-- ===== src/Head/Reassembly/AnyOrder.antt =====
-- Split on one side and reassembly on the other, whatever the order of arrival.
use mathlib.Core.List.{map, Perm}
use mathlib.Core.Path.{subst}
use mathlib.Core.Logic.{∥∥₁_elim}
use wire_gold.Common.{
  length, All, ℕ, ◌^◌, ◌≤◌, ◌<◌, ◌≡◌, refl, sym, ap, ap₂, ◌∙◌, Bool, true, false, Option, some,
  List, [], ◌∷◌, ◌++◌, arith,
}
use wire_gold.Algo.Xor.{encode_xor_len}
use wire_gold.Head.Packet.{Packet, PacketBuf}
use wire_gold.Head.Header.Endian.{write_header_to-endian}
use wire_gold.Head.Unbox.Read.{IsPacket, IsDigest}
use wire_gold.Head.Unbox.Segment.{at_offset}
use wire_gold.Head.Builder.Split.{parts, split, build_packet_from_bytes}
use wire_gold.Head.Builder.Split.Cover.{IsSlice}
use wire_gold.Head.Builder.Split.Fit.{fragmented, limit_of, datagram_len, split_large}
use wire_gold.Head.Builder.Split.Ready.{IsReady, fragment-IsPacket}
use wire_gold.Head.Reassembly.{reassemble}
use wire_gold.Head.Reassembly.Fragments.{IsFragment}
use wire_gold.Head.Reassembly.Complete.{
  Arrival, Arrival-perm, completed, reassemble-Arrival, cut_parts, cut-Arrival,
}

-- A header is the same on every sender.
pub build-endian :
    (sender : Bool) (md5 : List ℕ → List ℕ) (pb : PacketBuf)
    → IsPacket pb.dat
    → build_packet_from_bytes sender md5 pb ≡ build_packet_from_bytes true md5 pb
unfolding build_packet_from_bytes
build-endian true md5 pb v = refl
build-endian false md5 pb v =
    ap (λ (h : Packet × List ℕ). h.1 ++ pb.buffer)
      (write_header_to-endian md5 pb.dat v.proto_fits v.ttl_fits)

builds-endian :
    (sender : Bool) (md5 : List ℕ → List ℕ) (base : Packet) (body : List ℕ) (pbs : List PacketBuf)
    → ((o : ℕ) → o < 2 ^ 16 → IsPacket (at_offset base o))
    → length body < 2 ^ 16
    → All (IsFragment base body) pbs
    → map (build_packet_from_bytes sender md5) pbs ≡ map (build_packet_from_bytes true md5) pbs
builds-endian sender md5 base body [] v short h = refl
builds-endian sender md5 base body (pb ∷ pbs) v short h =
    ap₂ ◌∷◌
      (build-endian sender md5 pb
        (subst IsPacket (sym h.0.0) (v pb.dat.offset (omega (arith, h.0.1.0, h.0.1.1)))))
      (builds-endian sender md5 base body pbs v short h.1)

Outcome-set : IsSet (Option (Bool × Packet × List ℕ))
Outcome-set = hlevel

pub several_is_large :
    (mtu : ℕ) (ub : PacketBuf) → 42 ≤ mtu → limit_of mtu < length ub.buffer → mtu < datagram_len ub
unfolding encode_xor_len
several_is_large mtu ub h k = omega arith

module _ (slice : ℕ → ℕ → List ℕ → List ℕ) (is_slice : IsSlice slice) (md5 : List ℕ → List ℕ)
    (digest : IsDigest md5) (sender receiver : Bool) (fresh ub : PacketBuf)
    (empty : fresh.buffer ≡ []) (r : IsReady ub) (mtu : ℕ) (roomy : 42 ≤ mtu)
    (several : limit_of mtu < length ub.buffer) where
  -- A body too long for one fragment and shorter than 2^16 bytes, in a packet whose fields fit,
  -- with no size, flag or offset set, is split at an mtu of at least 42 and put together again
  -- from its datagrams in any order of arrival, with any byte order on either side: the packet is
  -- complete, has that body, and its header is that of the fragments at offset 0. MD5 gives bytes,
  -- Slice the bytes between its bounds, and the packet from the pool has an empty buffer.
  pub reassemble-split :
      (pbs arrived : List PacketBuf)
      → split slice mtu false ub ≡ parts pbs
      → Perm pbs arrived
      → reassemble receiver md5 fresh (map (build_packet_from_bytes sender md5) arrived)
        ≡ some (true, completed md5 (fragmented ub).dat, ub.buffer)
  reassemble-split pbs arrived e p = ∥∥₁_elim p (Outcome-set _ _) (λ d.
      let a = Arrival-perm d (
        subst (Arrival (fragmented ub).dat ub.buffer) same
          (cut-Arrival slice is_slice ub r mtu roomy several)) in
      rw
        (builds-endian sender md5 (fragmented ub).dat ub.buffer arrived (fragment-IsPacket ub r)
          r.short a.fragments)
        (reassemble-Arrival md5 receiver fresh ub digest empty r arrived a))
    where
      of_parts : {xs ys : List PacketBuf} → parts xs ≡ parts ys → xs ≡ ys
      of_parts q = cc

      same : cut_parts slice is_slice ub r mtu roomy several ≡ pbs
      same =
          of_parts
            (sym (split_large slice mtu ub roomy (several_is_large mtu ub roomy several)) ∙ e)
