-- ===== src/Link/Recv/Gather/Sent.antt =====
-- gold/link/send.go and recv.go: what one link sends for a packet, the other end's wait takes.
use wire_gold.Common.{
  if◌then◌else◌, length, All, length-append, AreBytes, ℕ, ◌+◌, ◌*◌, ◌%◌, ◌^◌, ◌≤◌, ◌<◌, ◌≡◌, refl,
  sym, ap, ◌∙◌, Bool, true, false, Option, some, List, [], ◌∷◌, ◌++◌, arith,
}
use mathlib.Core.List.{Permᴰ}
use mathlib.Core.Path.{subst}
use wire_gold.Algo.Xor.{encode_xor, encode_xor_len}
use wire_gold.Algo.Xor.RoundTrip.{decode_xor-encode_xor, length-encode_xor}
use wire_gold.Head.Packet.{PacketBuf}
use wire_gold.Head.Unbox.Read.{IsDigest, IsPacket, header_bytes, length-header_bytes}
use wire_gold.Head.Builder.Split.{build_packet_from_bytes, split, parts}
use wire_gold.Head.Builder.Split.Cover.{IsSlice}
use wire_gold.Head.Builder.Split.Fit.{fragmented, limit_of}
use wire_gold.Head.Builder.Split.Ready.{IsReady, fragment-IsPacket}
use wire_gold.Head.Reassembly.Order.{All-perm}
use wire_gold.Head.Reassembly.Fragments.{IsFragment}
use wire_gold.Head.Reassembly.Complete.{completed}
use wire_gold.Head.Reassembly.AnyOrder.{build-endian}
use wire_gold.Link.Send.{
  Outlet, Draws, Codecs, packed, write2peer, write2peer1, send_parts, send_all, split_and_send,
  drawn_mtu, randseq,
}
use wire_gold.Link.Send.Masked.{Agrees, write2peer1-once}
use wire_gold.Link.Recv.{Host}
use wire_gold.Link.Recv.Gather.{Parcel, Setup, Carried, AreNew, IsKnown, wait_all, last_arrives}
use wire_gold.Link.Recv.Gather.Whole.{wait_all-split, split-Arrival, parts_of, IsFree}

-- The datagrams of the fragments, from number i on, as they come: `addr` and `now` say from where
-- and when.
abbrev pub sent_parcels :
    Codecs → Outlet → Draws → ℕ → (ℕ → ℕ) → (ℕ → ℕ) → List PacketBuf → ℕ → List Parcel
sent_parcels c l d sndcnt addr now [] i = []
sent_parcels c l d sndcnt addr now (pb ∷ rest) i =
    let seq = randseq (d.seq_high i) sndcnt in
    let bytes = build_packet_from_bytes c.little c.md5 pb in
    (record {
      addr = addr i;
      now = now i;
      bytes = packed l.b14 (encode_xor (d.mask_bytes (2 * i + 1)) bytes l.mask seq);
      seq = seq;
      part = pb;
    })
    ∷ sent_parcels c l d sndcnt addr now rest (i + 1)

-- What goes out to an endpoint.
abbrev pub datagrams : ℕ → List Parcel → List (ℕ × List ℕ)
datagrams ep [] = []
datagrams ep (q ∷ qs) = (ep, q.bytes) ∷ datagrams ep qs

-- The receiver of a link.
abbrev pub receiver : Option (List ℕ → Option (List ℕ)) → Bool → Codecs → Outlet → PacketBuf → Setup
receiver decode little c l fresh = record {
  b14 = decode;
  little = little;
  md5 = c.md5;
  fresh = fresh;
  mask = l.mask;
}

-- A link that sends each datagram once, to an endpoint, over an open socket, with a mask of 64
-- bits and draws of the right size.
pub record IsSending (l : Outlet) (d : Draws) (ep : ℕ) : Type 0 where
  pub once : l.doublepacket ≡ false
  pub known : l.endpoint ≡ some ep
  pub opened : l.conn ≡ true
  pub mask_fits : l.mask < 2 ^ 64
  pub high_fits : (i : ℕ) → d.seq_high i < 2 ^ 16
  pub four : (i : ℕ) → length (d.mask_bytes i) ≡ 4
  pub drawn : (i : ℕ) → AreBytes (d.mask_bytes i)

-- The encoder is undone, and makes nothing shorter.
pub record IsCodec (encode : Option (List ℕ → List ℕ)) (decode : Option (List ℕ → Option (List ℕ)))
    : Type 0 where
  pub agrees : Agrees encode decode
  pub longer : (bytes : List ℕ) → length bytes ≤ length (packed encode bytes)

parts_of-sent_parcels :
    (c : Codecs) (l : Outlet) (d : Draws) (sndcnt : ℕ) (addr now : ℕ → ℕ) (pbs : List PacketBuf)
    (i : ℕ)
    → parts_of (sent_parcels c l d sndcnt addr now pbs i) ≡ pbs
parts_of-sent_parcels c l d sndcnt addr now [] i = refl
parts_of-sent_parcels c l d sndcnt addr now (pb ∷ rest) i =
    ap (λ (t : List PacketBuf). pb ∷ t) (parts_of-sent_parcels c l d sndcnt addr now rest (i + 1))

parts_of-perm : {ds es : List Parcel} → Permᴰ ds es → Permᴰ (parts_of ds) (parts_of es)
parts_of-perm Permᴰ.nil = Permᴰ.nil
parts_of-perm (Permᴰ.cons e p) = Permᴰ.cons (ap (λ (q : Parcel). q.part) e) (parts_of-perm p)
parts_of-perm (Permᴰ.swap e f) =
    Permᴰ.swap (ap (λ (q : Parcel). q.part) e) (ap (λ (q : Parcel). q.part) f)
parts_of-perm (Permᴰ.trans p q) = Permᴰ.trans (parts_of-perm p) (parts_of-perm q)

-- The datagram before the mask is one of bytes.
abbrev pub BuildsBytes : Codecs → PacketBuf → Type 0
BuildsBytes c pb = AreBytes (build_packet_from_bytes c.little c.md5 pb)

module _ (c : Codecs) (l : Outlet) (d : Draws) (sndcnt ep : ℕ) (sending : IsSending l d ep)
    (short_count : sndcnt < 2 ^ 16) (addr now : ℕ → ℕ) (decode : Option (List ℕ → Option (List ℕ)))
    (codec : IsCodec l.b14 decode) where
  randseq-fits : (i : ℕ) → randseq (d.seq_high i) sndcnt < 2 ^ 32
  unfolding randseq
  randseq-fits i = omega (arith, sending.high_fits i)

  randseq-low : (i : ℕ) → randseq (d.seq_high i) sndcnt % 2 ^ 16 ≡ sndcnt
  unfolding randseq
  randseq-low i = omega (arith, sending.high_fits i)

  send_parts-datagrams :
      (pbs : List PacketBuf) (i : ℕ)
      → All (BuildsBytes c) pbs
      → send_parts c l d sndcnt pbs i ≡ datagrams ep (sent_parcels c l d sndcnt addr now pbs i)
  unfolding send_parts write2peer
  send_parts-datagrams [] i builds = refl
  send_parts-datagrams (pb ∷ rest) i builds =
      let bytes = build_packet_from_bytes c.little c.md5 pb in
      let seq = randseq (d.seq_high i) sndcnt in
      let second = d.mask_bytes (2 * i + 1) in
      let others = send_parts c l d sndcnt rest (i + 1) in
      ap
        (λ (t : Bool).
          (if t
            then write2peer1 l (d.mask_bytes (2 * i)) bytes seq ++ write2peer1 l second bytes seq
            else write2peer1 l second bytes seq)
          ++ others)
        sending.once
      ∙ ap (λ (w : List (ℕ × List ℕ)). w ++ others)
          (write2peer1-once l decode codec.agrees bytes seq ep builds.0 sending.mask_fits
            (randseq-fits i) sending.known sending.opened second)
      ∙ ap (λ (w : List (ℕ × List ℕ)). (ep, packed l.b14 (encode_xor second bytes l.mask seq)) ∷ w)
          (send_parts-datagrams rest (i + 1) builds.1)

  -- A header has 32 bytes, on every sender.
  length-built :
      (pb : PacketBuf) → IsPacket pb.dat → 32 ≤ length (build_packet_from_bytes c.little c.md5 pb)
  unfolding build_packet_from_bytes header_bytes
  length-built pb packet = omega (
    arith,
    ap length (build-endian c.little c.md5 pb packet),
    length-append (header_bytes c.md5 pb.dat) pb.buffer,
    length-header_bytes c.md5 pb.dat packet,
  )

  sent_parcels-Carried :
      (little : Bool) (fresh ub : PacketBuf) (r : IsReady ub) (pbs : List PacketBuf) (i : ℕ)
      → All (BuildsBytes c) pbs
      → All (IsFragment (fragmented ub).dat ub.buffer) pbs
      → All
          (Carried
            (receiver decode little c l fresh)
            sndcnt
            (build_packet_from_bytes c.little c.md5))
          (sent_parcels c l d sndcnt addr now pbs i)
  unfolding encode_xor_len
  sent_parcels-Carried little fresh ub r [] i builds fragments = tt
  sent_parcels-Carried little fresh ub r (pb ∷ rest) i builds fragments =
      let bytes = build_packet_from_bytes c.little c.md5 pb in
      let seq = randseq (d.seq_high i) sndcnt in
      let drawn = d.mask_bytes (2 * i + 1) in
      let inner = encode_xor drawn bytes l.mask seq in
      let f = fragments.0 in
      let packet =
        subst IsPacket (sym f.0)
          (fragment-IsPacket ub r pb.dat.offset (omega (arith, f.1.0, f.1.1, r.short))) in
      let long : 40 ≤ length inner =
        omega (arith, length-encode_xor drawn bytes l.mask seq, length-built pb packet) in
      (
        (
          omega (arith, long, codec.longer inner),
          randseq-low i,
          (
            inner,
            long,
            codec.agrees inner,
            decode_xor-encode_xor drawn bytes l.mask seq (sending.four (2 * i + 1))
                (sending.drawn (2 * i + 1)) builds.0 sending.mask_fits (randseq-fits i),
          ),
        ),
        sent_parcels-Carried little fresh ub r rest (i + 1) builds.1 fragments.1,
      )

  -- What WritePacket makes of a finished packet is sent without a panic, one datagram for each
  -- fragment of Split, and when these datagrams, in any order and from any addresses, are passed
  -- to the wait of the other end, all but the last wait for more parts, and the last gives the
  -- packet, complete, with exactly its body. The mtu is at least 42 after its cut, the packet is
  -- ready to be split and its body too long for one fragment and shorter than 2^16 bytes; the link
  -- sends each datagram once to an endpoint over an open socket, draws of the right size are made,
  -- the count fits 16 bits and the fragments are built of bytes; both ends have one mask of 64
  -- bits and one encoder and decoder, which make nothing shorter; the sender is a known peer there
  -- and the destination that host; under the count no packet waits, and the marks are new when
  -- they come. MD5 gives bytes, Slice the bytes between its bounds, and the packet of the pool is
  -- empty.
  pub wait_all-split_and_send :
      (little : Bool) (fresh ub : PacketBuf) (pbs : List PacketBuf) (ds : List Parcel) (m : Host)
      → IsDigest c.md5
      → fresh.buffer ≡ []
      → IsSlice c.slice
      → IsReady ub
      → 42 ≤ drawn_mtu l d.mtu_cut
      → limit_of (drawn_mtu l d.mtu_cut) < length ub.buffer
      → split c.slice (drawn_mtu l d.mtu_cut) false ub ≡ parts pbs
      → All (BuildsBytes c) pbs
      → Permᴰ (sent_parcels c l d sndcnt addr now pbs 0) ds
      → AreNew c.md5 m.recved ds
      → IsKnown ub.dat m
      → IsFree sndcnt m.recving
      → (split_and_send c l d sndcnt (some ub)
          ≡ some (datagrams ep (sent_parcels c l d sndcnt addr now pbs 0)))
        × (wait_all (receiver decode little c l fresh) ds m
            ≡ last_arrives
                (record { dat = completed c.md5 (fragmented ub).dat; buffer = ub.buffer })
                ds)
  wait_all-split_and_send little fresh ub pbs ds m digest empty is_slice r roomy several e builds p
        new known free =
      let mtu = drawn_mtu l d.mtu_cut in
      let a = split-Arrival c.slice is_slice ub r mtu roomy several pbs e in
      let s = receiver decode little c l fresh in
      let same = parts_of-sent_parcels c l d sndcnt addr now pbs 0 in
      let moved : Permᴰ pbs (parts_of ds) =
        subst (λ (t : List PacketBuf). Permᴰ t (parts_of ds)) same (parts_of-perm p) in
      (
        ap (send_all c l d sndcnt) e ∙ ap some (send_parts-datagrams pbs 0 builds),
        wait_all-split s digest empty c.slice is_slice c.little ub r mtu roomy several pbs ds sndcnt
            m e moved
            (All-perm (Carried s sndcnt (build_packet_from_bytes c.little c.md5)) p
              (sent_parcels-Carried little fresh ub r pbs 0 builds a.fragments))
            new known free,
      )
