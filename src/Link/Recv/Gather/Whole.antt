-- ===== src/Link/Recv/Gather/Whole.antt =====
-- gold/link/recv.go: all parts of a packet, in any order, make it.
use wire_gold.Common.{
  ltb, ◌==◌, if◌then◌else◌, lt→ltb, length, replicate, All, length-replicate, ℕ, ◌-◌, ◌≤◌, ◌<◌, ◌≡◌,
  refl, sym, ap, ap₂, ◌∙◌, inl, Bool, true, false, not, some, List, [], ◌∷◌, arith,
}
use mathlib.Core.List.{map, Permᴰ}
use mathlib.Core.Path.{subst}
use wire_gold.Head.Packet.{PacketBuf}
use wire_gold.Head.Unbox.{copy_at}
use wire_gold.Head.Unbox.Read.{IsDigest, crc_of, IsPacket}
use wire_gold.Head.Unbox.Segment.{waiting, at_offset}
use wire_gold.Head.Builder.{datasize, set_has_more, set_no_frag}
use wire_gold.Head.Builder.Split.{build_packet_from_bytes, split, parts}
use wire_gold.Head.Builder.Split.Cover.{IsSlice}
use wire_gold.Head.Builder.Split.Fit.{fragmented, limit_of, split_large}
use wire_gold.Head.Builder.Split.Ready.{IsReady, fragment-IsPacket}
use wire_gold.Head.Reassembly.Paste.{paste, length-copy_at, Piece, paste-Covered}
use wire_gold.Head.Reassembly.Count.{total, offset_after, crc_after}
use wire_gold.Head.Reassembly.Order.{settled}
use wire_gold.Head.Reassembly.Fragments.{piece_of, IsFragment, pieces-of}
use wire_gold.Head.Reassembly.Complete.{Arrival, Arrival-perm, completed, cut_parts, cut-Arrival}
use wire_gold.Head.Reassembly.AnyOrder.{build-endian, several_is_large}
use wire_gold.Link.Router.{is_to_me}
use wire_gold.Link.Dispatch.{Peer, ip_number, is_in_peer, heard}
use wire_gold.Link.Recv.{Host, Waited, collected, get_or_set, drop_key, waiting_parts}
use wire_gold.Link.Recv.Gather.{
  Parcel, Setup, wait_one, wait_all, last_arrives, mark_of, AreNew, Carried, IsKnown,
  is_in_peer-set_peer, noted, get_or_set-here,
}
use wire_gold.Link.Recv.Gather.Parts.{part-collected, opened, IsPart}

abbrev pub pieces : List Parcel → List Piece
pieces [] = []
pieces (d ∷ ds) = piece_of d.part ∷ pieces ds

module _ (s : Setup) (ub : PacketBuf) (digest : IsDigest s.md5) (empty : s.fresh.buffer ≡ [])
    (r : IsReady ub) (k : ℕ) where
  -- The packet as it waits, with its own number of bytes to come.
  abbrev held : ℕ → ℕ → ℕ → List ℕ → PacketBuf
  held o crc rem buf = record { dat = waiting (fragmented ub).dat o crc rem; buffer = buf }

  gathers :
      (d : Parcel) (ds : List Parcel) (m : Host) (p : Peer) (o crc rem : ℕ) (buf : List ℕ)
      → All (IsPart s ub digest empty r k) (d ∷ ds)
      → All (Carried s k (build_packet_from_bytes true s.md5)) (d ∷ ds)
      → AreNew s.md5 m.recved (d ∷ ds)
      → is_in_peer (fragmented ub).dat.src m.host.connections ≡ some p
      → is_to_me m.host.me m.host.subnet (ip_number (fragmented ub).dat.dst) ≡ true
      → get_or_set k (opened s ub digest empty r k d.part) m.recving ≡ held o crc rem buf
      → total (pieces (d ∷ ds)) ≡ rem
      → length buf ≡ length ub.buffer
      → wait_all s (d ∷ ds) m
        ≡ last_arrives
            (held
              (offset_after o (pieces (d ∷ ds)))
              (crc_after s.md5 (fragmented ub).dat crc (pieces (d ∷ ds)))
              0
              (paste buf (pieces (d ∷ ds))))
            (d ∷ ds)
  unfolding total offset_after crc_after paste collected
  gathers d [] m p o crc rem buf all carried new known mine here count same =
      let q = piece_of d.part in
      let all_come : rem - length q.1 ≡ 0 = omega (arith, count) in
      let o' = if q.0 == 0 then 0 else o in
      let crc' = if q.0 == 0 then crc_of s.md5 (at_offset (fragmented ub).dat q.0) else crc in
      let after = noted (fragmented ub).dat.src p (mark_of s.md5 d) d m in
      ap (λ (t : Waited × Host). t.0 ∷ [])
        (part-collected s ub digest empty r k d m p o crc rem buf all.0 carried.0 new.0 known mine
            here (omega (arith, count)) same
          ∙ ap
              (λ (t : ℕ).
                collected after k (
                  some (not (ltb 0 t), waiting (fragmented ub).dat o' crc' t, copy_at buf q.0 q.1)))
              all_come)
  gathers d (e ∷ ds) m p o crc rem buf all carried new known mine here count same =
      let q = piece_of d.part in
      let left = rem - length q.1 in
      let more : not (ltb 0 left) ≡ false =
        ap not (lt→ltb 0 left (omega (arith, count, all.1.0.0.1.0))) in
      let o' = if q.0 == 0 then 0 else o in
      let crc' = if q.0 == 0 then crc_of s.md5 (at_offset (fragmented ub).dat q.0) else crc in
      let after = noted (fragmented ub).dat.src p (mark_of s.md5 d) d m in
      let st = held o' crc' left (copy_at buf q.0 q.1) in
      let next = record after { recving = (k, st) ∷ drop_key k m.recving } in
      let reached : wait_one s d m ≡ (waiting_parts, next) =
        part-collected s ub digest empty r k d m p o crc rem buf all.0 carried.0 new.0 known mine
          here (omega (arith, count)) same
        ∙ ap
            (λ (t : Bool).
              collected after k
                (some (t, waiting (fragmented ub).dat o' crc' left, copy_at buf q.0 q.1)))
            more in
      ap (λ (t : Waited × Host). t.0 ∷ wait_all s (e ∷ ds) t.1) reached
      ∙ ap (λ (l : List Waited). waiting_parts ∷ l)
          (gathers e ds next (heard d.addr d.now p) o' crc' left (copy_at buf q.0 q.1) all.1
            carried.1 new.1
            (is_in_peer-set_peer (fragmented ub).dat.src p (heard d.addr d.now p) m.host.connections
              known)
            mine (get_or_set-here k (opened s ub digest empty r k e.part) st (drop_key k m.recving))
            (omega (arith, count))
            (length-copy_at buf q.0 q.1 (omega (arith, all.0.0.1.1, same)) ∙ same))

abbrev pub parts_of : List Parcel → List PacketBuf
parts_of [] = []
parts_of (d ∷ ds) = d.part ∷ parts_of ds

pieces-parts_of : (ds : List Parcel) → pieces ds ≡ map piece_of (parts_of ds)
pieces-parts_of [] = refl
pieces-parts_of (d ∷ ds) = ap (λ (l : List Piece). piece_of d.part ∷ l) (pieces-parts_of ds)

-- No packet waits under that number.
abbrev pub IsFree : ℕ → List (ℕ × PacketBuf) → Type 0
IsFree k l = All (λ (e : ℕ × PacketBuf). (k == e.0) ≡ false) l

get_or_set-free :
    (k : ℕ) (pb : PacketBuf) (l : List (ℕ × PacketBuf)) → IsFree k l → get_or_set k pb l ≡ pb
get_or_set-free k pb [] free = refl
get_or_set-free k pb ((j, h) ∷ rest) free =
    ap (λ (t : Bool). if t then h else get_or_set k pb rest) free.0
    ∙ get_or_set-free k pb rest free.1

module _ (s : Setup) (ub : PacketBuf) (digest : IsDigest s.md5) (empty : s.fresh.buffer ≡ [])
    (r : IsReady ub) (k : ℕ) where
  all_parts :
      (ds : List Parcel)
      → All (IsFragment (fragmented ub).dat ub.buffer) (parts_of ds)
      → All (λ (pb : PacketBuf). length pb.buffer < length ub.buffer) (parts_of ds)
      → All (IsPart s ub digest empty r k) ds
  all_parts [] fragments less = tt
  all_parts (d ∷ ds) fragments less = ((fragments.0, less.0), all_parts ds fragments.1 less.1)

  -- The header is the same on every sender.
  Carried-endian :
      (sender : Bool) (ds : List Parcel)
      → All (IsFragment (fragmented ub).dat ub.buffer) (parts_of ds)
      → All (Carried s k (build_packet_from_bytes sender s.md5)) ds
      → All (Carried s k (build_packet_from_bytes true s.md5)) ds
  Carried-endian sender [] fragments carried = tt
  Carried-endian sender (d ∷ ds) fragments
        ((long, low, (inner, long_inner, decoded, found)), rest) =
      let f = fragments.0 in
      let packet =
        subst IsPacket (sym f.0)
          (fragment-IsPacket ub r d.part.dat.offset (omega (arith, f.1.0, f.1.1, r.short))) in
      (
        (
          long,
          low,
          (
            inner,
            long_inner,
            decoded,
            found ∙ ap (λ (l : List ℕ). (d.seq, some l)) (build-endian sender s.md5 d.part packet),
          ),
        ),
        Carried-endian sender ds fragments.1 rest,
      )

  gathers-Arrival :
      (ds : List Parcel) (m : Host)
      → Arrival (fragmented ub).dat ub.buffer (parts_of ds)
      → All (Carried s k (build_packet_from_bytes true s.md5)) ds
      → AreNew s.md5 m.recved ds
      → IsKnown (fragmented ub).dat m
      → IsFree k m.recving
      → wait_all s ds m
        ≡ last_arrives (record { dat = completed s.md5 (fragmented ub).dat; buffer = ub.buffer }) ds
  gathers-Arrival [] m a carried new known free = refl
  gathers-Arrival (d ∷ ds) m a carried new ((p, sender_known), mine) free =
      let base = (fragmented ub).dat in
      let o = d.part.dat.offset in
      let crc = crc_of s.md5 (at_offset base o) in
      let len = length ub.buffer in
      let zeros : List ℕ = replicate len 0 in
      let same = pieces-parts_of (d ∷ ds) in
      let ps = map piece_of (parts_of (d ∷ ds)) in
      let done = settled s.md5 base ps o crc (inl a.started) in
      let whole =
        paste-Covered ub.buffer ps zeros (length-replicate {A = ℕ} len 0)
          (pieces-of base ub.buffer (parts_of (d ∷ ds)) a.fragments) a.covered in
      gathers s ub digest empty r k d ds m p o crc len zeros
        (all_parts (d ∷ ds) a.fragments a.partial) carried new sender_known mine
        (get_or_set-free k (opened s ub digest empty r k d.part) m.recving free)
        (ap total same ∙ a.counted) (length-replicate {A = ℕ} len 0)
      ∙ ap
          (λ (l : List Piece).
            last_arrives
              (record {
                dat = waiting base (offset_after o l) (crc_after s.md5 base crc l) 0;
                buffer = paste zeros l;
              })
              (d ∷ ds))
          same
      ∙ ap
          (λ (l : List ℕ).
            last_arrives
              (record {
                dat = waiting base (offset_after o ps) (crc_after s.md5 base crc ps) 0;
                buffer = l;
              })
              (d ∷ ds))
          whole
      ∙ ap₂
          (λ (o' crc' : ℕ).
            last_arrives (record { dat = waiting base o' crc' 0; buffer = ub.buffer }) (d ∷ ds))
          done.0 done.1

-- The fragments of Split are all that the receiver needs.
module _ (slice : ℕ → ℕ → List ℕ → List ℕ) (is_slice : IsSlice slice) (ub : PacketBuf)
    (r : IsReady ub) (mtu : ℕ) (roomy : 42 ≤ mtu) (several : limit_of mtu < length ub.buffer) where
  pub split-Arrival :
      (pbs : List PacketBuf)
      → split slice mtu false ub ≡ parts pbs
      → Arrival (fragmented ub).dat ub.buffer pbs
  split-Arrival pbs e =
      subst (Arrival (fragmented ub).dat ub.buffer) same
        (cut-Arrival slice is_slice ub r mtu roomy several)
    where
      of_parts : {xs ys : List PacketBuf} → parts xs ≡ parts ys → xs ≡ ys
      of_parts q = cc

      same : cut_parts slice is_slice ub r mtu roomy several ≡ pbs
      same =
          of_parts
            (sym (split_large slice mtu ub roomy (several_is_large mtu ub roomy several)) ∙ e)

module _ (s : Setup) (digest : IsDigest s.md5) (empty : s.fresh.buffer ≡ [])
    (slice : ℕ → ℕ → List ℕ → List ℕ) (is_slice : IsSlice slice) (sender : Bool) (ub : PacketBuf)
    (r : IsReady ub) (mtu : ℕ) (roomy : 42 ≤ mtu) (several : limit_of mtu < length ub.buffer) where
  -- The datagrams of the fragments of Split, in any order, give the packet with its body.
  pub wait_all-split :
      (pbs : List PacketBuf) (ds : List Parcel) (k : ℕ) (m : Host)
      → split slice mtu false ub ≡ parts pbs
      → Permᴰ pbs (parts_of ds)
      → All (Carried s k (build_packet_from_bytes sender s.md5)) ds
      → AreNew s.md5 m.recved ds
      → IsKnown ub.dat m
      → IsFree k m.recving
      → wait_all s ds m
        ≡ last_arrives (record { dat = completed s.md5 (fragmented ub).dat; buffer = ub.buffer }) ds
  unfolding fragmented datasize set_has_more set_no_frag
  wait_all-split pbs ds k m e p carried new known free =
      let a = Arrival-perm p (split-Arrival slice is_slice ub r mtu roomy several pbs e) in
      gathers-Arrival s ub digest empty r k ds m a
        (Carried-endian s ub digest empty r k sender ds a.fragments carried) new known free
