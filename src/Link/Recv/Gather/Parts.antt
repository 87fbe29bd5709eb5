-- ===== src/Link/Recv/Gather/Parts.antt =====
-- gold/link/recv.go: the parts of one packet go to it, part by part.
use wire_gold.Common.{
  ltb, ◌==◌, if◌then◌else◌, length, replicate, ℕ, ◌-◌, ◌≤◌, ◌<◌, bit_xor, ◌≡◌, sym, ap, ◌∙◌, true,
  false, not, Option, some, List, [], ◌++◌, arith,
}
use wire_gold.Algo.Xor.{decode_xor}
use wire_gold.Head.Flags.{has_more}
use wire_gold.Head.Packet.{Packet, PacketBuf}
use wire_gold.Head.Header.{write_header_to}
use wire_gold.Head.Unbox.{ok, parse_packet_header, copy_at, write_data_segment}
use wire_gold.Head.Unbox.Read.{IsDigest, crc_of, header_bytes}
use wire_gold.Head.Unbox.Segment.{waiting, at_offset, wire, write_fragment}
use wire_gold.Head.Builder.Split.{build_packet_from_bytes}
use wire_gold.Head.Builder.Split.Fit.{fragmented}
use wire_gold.Head.Builder.Split.Ready.{IsReady, fragment-IsPacket, fragment_proto, flags_of}
use wire_gold.Head.Reassembly.Fragments.{IsFragment}
use wire_gold.Head.Reassembly.Complete.{parse_first}
use wire_gold.Link.Router.{is_to_me}
use wire_gold.Link.Dispatch.{Peer, ip_number, is_in_peer}
use wire_gold.Link.Recv.{Host, judge, collect, collected, has_seen, get_or_set, or_nil}
use wire_gold.Link.Recv.Replay.{wait-judged}
use wire_gold.Link.Recv.Gather.{Parcel, Setup, wait_one, mark_of, Carried, noted, judge-collect}

module _ (s : Setup) (ub : PacketBuf) (digest : IsDigest s.md5) (empty : s.fresh.buffer ≡ [])
    (r : IsReady ub) (k : ℕ) where
  abbrev pub base : Packet
  base = (fragmented ub).dat

  -- The packet that a fragment opens.
  abbrev pub opened : PacketBuf → PacketBuf
  opened pb = record {
    dat =
        waiting base pb.dat.offset (crc_of s.md5 (at_offset base pb.dat.offset)) (length ub.buffer);
    buffer = replicate (length ub.buffer) 0;
  }

  abbrev pub IsPart : Parcel → Type 0
  IsPart d = IsFragment base ub.buffer d.part × (length d.part.buffer < length ub.buffer)

  wire_of :
      (pb : PacketBuf)
      → IsFragment base ub.buffer pb
      → wire s.md5 base pb.dat.offset pb.buffer ≡ build_packet_from_bytes true s.md5 pb
  unfolding build_packet_from_bytes header_bytes
  wire_of pb f = ap (λ (p : Packet). (write_header_to true s.md5 p []).1 ++ pb.buffer) (sym f.0)

  -- wait on a part is judge on its header and bytes.
  wait-part :
      (d : Parcel) (m : Host)
      → IsPart d
      → Carried s k (build_packet_from_bytes true s.md5) d
      → wait_one s d m
        ≡ judge d.addr d.now d.seq
            (wire s.md5 base d.part.dat.offset d.part.buffer)
            (ok (opened d.part))
            m
  wait-part d m part (long, low, (inner, long_inner, decoded, unmasked')) =
      let w = wire s.md5 base d.part.dat.offset d.part.buffer in
      let found : decode_xor inner s.mask ≡ (d.seq, some w) =
        unmasked' ∙ ap (λ (l : List ℕ). (d.seq, some l)) (sym (wire_of d.part part.0)) in
      let parsed =
        ap (λ (q : ℕ × Option (List ℕ)). parse_packet_header s.little s.md5 s.fresh (or_nil q.1))
          found
        ∙ parse_first s.md5 s.little s.fresh ub digest empty r d.part part.0 part.1 in
      wait-judged s.b14 s.little s.md5 s.fresh s.mask d.bytes inner (opened d.part) long decoded
        long_inner parsed d.addr d.now m
      ∙ ap (λ (q : ℕ × Option (List ℕ)). judge d.addr d.now q.0 (or_nil q.1) (ok (opened d.part)) m)
          found

  -- A part of the packet that waits under its number is written into it.
  pub part-collected :
      (d : Parcel) (m : Host) (p : Peer) (o crc rem : ℕ) (buf : List ℕ)
      → IsPart d
      → Carried s k (build_packet_from_bytes true s.md5) d
      → has_seen (mark_of s.md5 d) m.recved ≡ false
      → is_in_peer base.src m.host.connections ≡ some p
      → is_to_me m.host.me m.host.subnet (ip_number base.dst) ≡ true
      → get_or_set k (opened d.part) m.recving
        ≡ record { dat = waiting base o crc rem; buffer = buf }
      → length d.part.buffer ≤ rem
      → length buf ≡ length ub.buffer
      → wait_one s d m
        ≡ collected (noted base.src p (mark_of s.md5 d) d m) k (
            some (
              not (ltb 0 (rem - length d.part.buffer)),
              waiting base
                  (if d.part.dat.offset == 0 then 0 else o)
                  (if d.part.dat.offset == 0
                    then crc_of s.md5 (at_offset base d.part.dat.offset)
                    else crc)
                  (rem - length d.part.buffer),
              copy_at buf d.part.dat.offset d.part.buffer,
            ))
  unfolding collect
  part-collected d m p o crc rem buf part carried new known mine held enough same =
      let at = d.part.dat.offset in
      let mark = mark_of s.md5 d in
      let after = noted base.src p mark d m in
      let w = wire s.md5 base at d.part.buffer in
      let bits = part.0.1 in
      let flagged = flags_of ub.dat.proto r.unflagged in
      let marked : mark_of s.md5 d ≡ bit_xor d.seq (crc_of s.md5 (at_offset base at)) =
        ap (λ (q : Packet). bit_xor d.seq (crc_of s.md5 q)) part.0.0 in
      let new' = ap (λ (t : ℕ). has_seen t m.recved) (sym marked) ∙ new in
      wait-part d m part carried
      ∙ judge-collect d w (opened d.part) p m new' known mine
          (ap has_more (fragment_proto ub r) ∙ flagged.more_more)
      ∙ ap (λ (t : ℕ). collect d.seq w (opened d.part) (noted base.src p t d m)) (sym marked)
      ∙ ap
          (λ (t : ℕ).
            let h = get_or_set t (opened d.part) m.recving in
            collected after t (write_data_segment h.dat w h.buffer))
          carried.1
      ∙ ap (λ (h : PacketBuf). collected after k (write_data_segment h.dat w h.buffer)) held
      ∙ ap (collected after k) (
          write_fragment s.md5 base at d.part.buffer digest
            (fragment-IsPacket ub r at (omega (arith, bits.0, bits.1, r.short))) o crc rem buf
            bits.0 enough (omega (arith, bits.1, same)))
