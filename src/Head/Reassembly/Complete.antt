-- ===== src/Head/Reassembly/Complete.antt =====
-- From Split to the receiver's buffer: the fragments of a body, in any order of arrival.
use mathlib.Core.List.{map, Permᴰ}
use wire_gold.Common.{
  lt→ltb, length, replicate, Some, All, length-replicate, All-weaken, ℕ, zero, suc, ◌+◌, ◌-◌, ◌*◌,
  ◌≤◌, ◌<◌, ◌≡◌, refl, sym, ap, ◌∙◌, inl, Bool, true, false, some, List, [], ◌∷◌, arith,
}
use wire_gold.Head.Packet.{Packet, PacketBuf}
use wire_gold.Head.Unbox.{ok, parse_packet_header}
use wire_gold.Head.Unbox.Read.{IsDigest, crc_of}
use wire_gold.Head.Unbox.Segment.{waiting, at_offset, wire}
use wire_gold.Head.Unbox.Accept.{parse_fragment}
use wire_gold.Head.Builder.{datasize}
use wire_gold.Head.Builder.Split.{cut, fragment_count, build_packet_from_bytes}
use wire_gold.Head.Builder.Split.Cover.{IsSlice, bodies-cut_all, fragment_count_bounds}
use wire_gold.Head.Builder.Split.Fit.{fragmented, limit_of, cut-bounds}
use wire_gold.Head.Builder.Split.Ready.{
  IsReady, fragment_proto, fragment_size, fragment-IsPacket, flags_of,
}
use wire_gold.Head.Reassembly.{write_all, reassemble}
use wire_gold.Head.Reassembly.Paste.{InPiece, paste-Covered}
use wire_gold.Head.Reassembly.Count.{total, wires, write_all-pieces}
use wire_gold.Head.Reassembly.Order.{total-perm, All-perm, Some-perm, IsFirst, settled}
use wire_gold.Head.Reassembly.Fragments.{
  piece_of, IsFragment, wires-fragments, pieces-of, total-bodies, Some-map, cut-IsFragment,
  cut-covers, cut-starts,
}

map-perm : {pbs rs : List PacketBuf} → Permᴰ pbs rs → Permᴰ (map piece_of pbs) (map piece_of rs)
map-perm Permᴰ.nil = Permᴰ.nil
map-perm (Permᴰ.cons e p) = Permᴰ.cons (ap piece_of e) (map-perm p)
map-perm (Permᴰ.swap e f) = Permᴰ.swap (ap piece_of e) (ap piece_of f)
map-perm (Permᴰ.trans p q) = Permᴰ.trans (map-perm p) (map-perm q)

-- What a receiver needs to know of the datagrams that arrive.
pub record Arrival (base : Packet) (body : List ℕ) (pbs : List PacketBuf) : Type 0 where
  pub fragments : All (IsFragment base body) pbs
  pub counted : total (map piece_of pbs) ≡ length body
  pub covered : (j : ℕ) → j < length body → Some (λ q. InPiece q j) (map piece_of pbs)
  pub started : Some IsFirst (map piece_of pbs)
  pub partial : All (λ pb. length pb.buffer < length body) pbs

pub Arrival-perm :
    {base : Packet} {body : List ℕ} {pbs rs : List PacketBuf}
    → Permᴰ pbs rs
    → Arrival base body pbs
    → Arrival base body rs
Arrival-perm {base} {body} p a = record {
  fragments = All-perm (IsFragment base body) p a.fragments;
  counted = sym (total-perm (map-perm p)) ∙ a.counted;
  covered = λ j h. Some-perm (λ q. InPiece q j) (map-perm p) (a.covered j h);
  started = Some-perm IsFirst (map-perm p) a.started;
  partial = All-perm (λ pb. length pb.buffer < length body) p a.partial;
}

-- The packet as it stands complete: at offset 0, with the checksum of the fragment there.
abbrev pub completed : (List ℕ → List ℕ) → Packet → Packet
completed md5 base = waiting base 0 (crc_of md5 (at_offset base 0)) 0

reassemble-cons :
    (little : Bool) (md5 : List ℕ → List ℕ) (fresh : PacketBuf) (w : List ℕ) (ws : List (List ℕ))
    {pb : PacketBuf}
    → parse_packet_header little md5 fresh w ≡ ok pb
    → reassemble little md5 fresh (w ∷ ws) ≡ write_all false pb.dat pb.buffer (w ∷ ws)
unfolding reassemble
reassemble-cons little md5 fresh w ws e = rw (e, reassemble) refl

module _ (md5 : List ℕ → List ℕ) (little : Bool) (fresh : PacketBuf) (ub : PacketBuf)
    (digest : IsDigest md5) (empty : fresh.buffer ≡ []) (r : IsReady ub) where
  pub parse_first :
      (pb : PacketBuf)
      → IsFragment (fragmented ub).dat ub.buffer pb
      → length pb.buffer < length ub.buffer
      → parse_packet_header little md5 fresh (wire md5 (fragmented ub).dat pb.dat.offset pb.buffer)
        ≡ ok (record {
          dat =
              waiting
                (fragmented ub).dat
                pb.dat.offset
                (crc_of md5 (at_offset (fragmented ub).dat pb.dat.offset))
                (length ub.buffer);
          buffer = replicate (length ub.buffer) 0;
        })
  parse_first pb f less =
      let base = (fragmented ub).dat in
      let flagged = flags_of ub.dat.proto r.unflagged in
      rw (← fragment_size ub r pb.dat.offset) (
        parse_fragment md5 little fresh (at_offset base pb.dat.offset) pb.buffer digest
          (fragment-IsPacket ub r pb.dat.offset (omega (arith, f.1.0, f.1.1, r.short)))
          (rw (fragment_proto ub r) flagged.more_valid) f.1.0 empty
          (rw (fragment_proto ub r) flagged.more_more)
          (omega (arith, fragment_size ub r pb.dat.offset, f.1.1))
          (omega (arith, fragment_size ub r pb.dat.offset)))

  pub reassemble-Arrival :
      (pbs : List PacketBuf)
      → Arrival (fragmented ub).dat ub.buffer pbs
      → reassemble little md5 fresh (map (build_packet_from_bytes true md5) pbs)
        ≡ some (true, completed md5 (fragmented ub).dat, ub.buffer)
  unfolding wires
  reassemble-Arrival [] a = absurd a.started
  reassemble-Arrival (pb ∷ pbs) a =
      let base = (fragmented ub).dat in
      let pieces = map piece_of (pb ∷ pbs) in
      let o = pb.dat.offset in
      let crc = crc_of md5 (at_offset base o) in
      let len = length ub.buffer in
      let zeros : List ℕ = replicate len 0 in
      let done = settled md5 base pieces o crc (inl a.started) in
      let parts = pieces-of base ub.buffer (pb ∷ pbs) a.fragments in
      let gone : len - total pieces ≡ 0 = omega (arith, a.counted) in
      let some_body : 0 < len = omega (arith, a.partial.0) in
      rw (← wires-fragments md5 base ub.buffer (pb ∷ pbs) a.fragments) (
        reassemble-cons little md5 fresh (wire md5 base o pb.buffer)
          (wires md5 base (map piece_of pbs)) (parse_first pb a.fragments.0 a.partial.0)
        ∙ write_all-pieces md5 base ub.buffer digest (fragment-IsPacket ub r) r.short pieces false o
            crc len zeros parts (length-replicate {A = ℕ} len 0) (omega (arith, a.counted))
            (rw (lt→ltb 0 len some_body) refl)
        ∙ rw
            (
              gone,
              done.0,
              done.1,
              paste-Covered ub.buffer pieces zeros (length-replicate {A = ℕ} len 0) parts a.covered,
            )
            refl)

module _ (slice : ℕ → ℕ → List ℕ → List ℕ) (is_slice : IsSlice slice) (ub : PacketBuf)
    (r : IsReady ub) (mtu : ℕ) (roomy : 42 ≤ mtu) (several : limit_of mtu < length ub.buffer) where
  abbrev pub cut_parts : List PacketBuf
  cut_parts =
      cut slice (fragmented ub) (limit_of mtu) (fragment_count (length ub.buffer) (limit_of mtu)) 0

  pub cut-Arrival : Arrival (fragmented ub).dat ub.buffer cut_parts
  unfolding fragmented datasize
  cut-Arrival =
      let d = limit_of mtu in
      let n = fragment_count (length ub.buffer) d in
      let bounds = fragment_count_bounds (length ub.buffer) d (omega arith) in
      let hi : (0 + n) * d < length ub.buffer + d = omega (arith, bounds) in
      let lo : length ub.buffer ≤ (0 + n) * d = omega (arith, bounds) in
      record {
        fragments = cut-IsFragment slice is_slice (fragmented ub) d r.short n 0 (omega arith) hi;
        counted =
            total-bodies (cut slice (fragmented ub) d n 0)
            ∙ ap length (bodies-cut_all slice is_slice (fragmented ub) d (omega arith));
        covered = λ j h.
            Some-map (λ q. InPiece q j) (cut slice (fragmented ub) d n 0)
              (cut-covers slice is_slice (fragmented ub) d r.short n 0 j hi lo (omega arith) h);
        started =
            Some-map IsFirst (cut slice (fragmented ub) d n 0)
              (cut-starts slice is_slice (fragmented ub) d r.short n (some_rounds n lo));
        partial =
            All-weaken (λ pb. (0 < length pb.buffer) × (length pb.buffer ≤ d)) _ _
              (λ pb h. omega arith)
              (cut-bounds slice is_slice (fragmented ub) d n 0 (omega arith) hi);
      }
    where
      some_rounds : (n : ℕ) → length ub.buffer ≤ (0 + n) * limit_of mtu → 0 < n
      some_rounds zero h = absurd (omega arith)
      some_rounds (suc n) h = omega arith
