-- ===== src/Link/Recv/Replay.antt =====
-- No datagram is taken twice.
use wire_gold.Common.{
  ltb, ◌==◌, le→ltb, ==_refl, Bool-cases, length, drop, ℕ, ◌≤◌, bit_xor, ◌≡◌, refl, ap, ◌∙◌, inl,
  inr, Bool, true, false, Option, none, some, List, [], ◌∷◌,
}
use wire_gold.Algo.Xor.{decode_xor}
use wire_gold.Head.Flags.{has_more}
use wire_gold.Head.Packet.{Packet, PacketBuf, dec_ttl}
use wire_gold.Head.Unbox.{Result, ok, err, parse_packet_header}
use wire_gold.Link.Router.{is_to_me}
use wire_gold.Link.Dispatch.{Peer, ip_number, extract_peer}
use wire_gold.Link.Recv.{
  Host, Waited, duplicated, has_seen, collected, collect, whole, hand_over, transfer, admit_from,
  admit, judge, or_nil, unmasked, unpacked, apply_b14, wait,
}

-- Behind the test on duplicates no branch touches the marks.
collected-recved :
    (m : Host) (k : ℕ) (r : Option (Bool × Packet × List ℕ)) → (collected m k r).1.recved ≡ m.recved
unfolding collected
collected-recved m k none = refl
collected-recved m k (some (true, p, buf)) = refl
collected-recved m k (some (false, p, buf)) = refl

whole-recved : (m : Host) (r : Option (Bool × Packet × List ℕ)) → (whole m r).1.recved ≡ m.recved
whole-recved m none = refl
whole-recved m (some (true, p, buf)) = refl
whole-recved m (some (false, p, buf)) = refl

hand_over-recved :
    (seq : ℕ) (bytes : List ℕ) (m : Host) (link : Option ℕ)
    → (hand_over seq bytes m link).1.recved ≡ m.recved
unfolding hand_over
hand_over-recved seq bytes m none = refl
hand_over-recved seq bytes m (some link) = elim (Bool-cases (dec_ttl bytes).0) [
  | inl drop ↦ rw drop refl
  | inr keep ↦ rw keep refl
]

transfer-recved :
    (p : Peer) (seq : ℕ) (bytes : List ℕ) (header : Packet) (m : Host)
    → (transfer p seq bytes header m).1.recved ≡ m.recved
unfolding transfer
transfer-recved p seq bytes header m = elim (Bool-cases p.allowtrans) [
  | inl may ↦ rw may (hand_over-recved seq bytes _ _)
  | inr refused ↦ rw refused refl
]

admit_from-recved :
    (peer : Option Peer) (seq : ℕ) (bytes : List ℕ) (header : PacketBuf) (m : Host)
    → (admit_from peer seq bytes header m).1.recved ≡ m.recved
unfolding admit_from collect
admit_from-recved none seq bytes header m = refl
admit_from-recved (some p) seq bytes header m =
    elim (Bool-cases (is_to_me m.host.me m.host.subnet (ip_number header.dat.dst))) [
      | inr other ↦ rw other (transfer-recved p seq bytes header.dat m)
      | inl mine ↦ elim (Bool-cases (has_more header.dat.proto)) [
        | inl more ↦ rw (mine, more) (collected-recved m _ _)
        | inr single ↦ rw (mine, single) (whole-recved m _)
      ]
    ]

has_seen-here : (k : ℕ) (marks : List ℕ) → has_seen k (k ∷ marks) ≡ true
has_seen-here k marks = rw (==_refl k) refl

has_seen-behind :
    (k j : ℕ) (marks : List ℕ) → has_seen k marks ≡ true → has_seen k (j ∷ marks) ≡ true
has_seen-behind k j marks here = elim (Bool-cases (k == j)) [
  | inl same ↦ rw same refl
  | inr other ↦ rw other here
]

judge-duplicated :
    (addr now seq : ℕ) (bytes : List ℕ) (pb : PacketBuf) (m : Host)
    → has_seen (bit_xor seq pb.dat.md5h8) m.recved ≡ true
    → judge addr now seq bytes (ok pb) m ≡ (duplicated, m)
unfolding judge
judge-duplicated addr now seq bytes pb m seen = rw seen refl

judge-marks :
    (addr now seq : ℕ) (bytes : List ℕ) (pb : PacketBuf) (m : Host)
    → has_seen (bit_xor seq pb.dat.md5h8) (judge addr now seq bytes (ok pb) m).1.recved ≡ true
unfolding judge admit
judge-marks addr now seq bytes pb m =
    let mark = bit_xor seq pb.dat.md5h8 in
    elim (Bool-cases (has_seen mark m.recved)) [
      | inl seen ↦ rw seen seen
      | inr new ↦
          let kept =
            admit_from-recved (extract_peer addr now pb.dat.src m.host).0 seq bytes pb (record m {
              recved = mark ∷ m.recved;
              host = (extract_peer addr now pb.dat.src m.host).1;
            }) in
          rw new (ap (has_seen mark) kept ∙ has_seen-here mark m.recved)
    ]

-- A mark stays in front of new ones.
judge-keeps :
    (k addr now seq : ℕ) (bytes : List ℕ) (r : Result PacketBuf) (m : Host)
    → has_seen k m.recved ≡ true
    → has_seen k (judge addr now seq bytes r m).1.recved ≡ true
unfolding judge admit
judge-keeps k addr now seq bytes (err e) m here = here
judge-keeps k addr now seq bytes (ok pb) m here =
    let mark = bit_xor seq pb.dat.md5h8 in
    elim (Bool-cases (has_seen mark m.recved)) [
      | inl seen ↦ rw seen here
      | inr new ↦
          let kept =
            admit_from-recved (extract_peer addr now pb.dat.src m.host).0 seq bytes pb (record m {
              recved = mark ∷ m.recved;
              host = (extract_peer addr now pb.dat.src m.host).1;
            }) in
          rw new (ap (has_seen k) kept ∙ has_seen-behind k mark m.recved here)
    ]

-- The address that a datagram comes from, the time, and its bytes.
abbrev pub Arrival : Type 0
Arrival = ℕ × ℕ × List ℕ

module _ (b14 : Option (List ℕ → Option (List ℕ))) (little : Bool) (md5 : List ℕ → List ℕ)
    (fresh : PacketBuf) (mask : ℕ) where
  -- The state after datagrams that come one after the other.
  abbrev pub after_all : List Arrival → Host → Host
  after_all [] m = m
  after_all ((addr, now, bytes) ∷ rest) m =
      after_all rest (wait b14 little md5 fresh mask addr now bytes m).1

  unmasked-keeps :
      (k addr now : ℕ) (bytes : List ℕ) (m : Host)
      → has_seen k m.recved ≡ true
      → has_seen k (unmasked little md5 fresh mask addr now bytes m).1.recved ≡ true
  unfolding unmasked
  unmasked-keeps k addr now bytes m here =
      let d = decode_xor bytes mask in
      elim (Bool-cases (ltb (length bytes) 40)) [
        | inl short ↦ rw short here
        | inr long ↦ rw long (
            judge-keeps k addr now d.0 (or_nil d.1)
              (parse_packet_header little md5 fresh (or_nil d.1)) m here)
      ]

  unpacked-keeps :
      (k addr now : ℕ) (decoded : Option (List ℕ)) (m : Host)
      → has_seen k m.recved ≡ true
      → has_seen k (unpacked little md5 fresh mask addr now decoded m).1.recved ≡ true
  unpacked-keeps k addr now none m here = here
  unpacked-keeps k addr now (some bytes) m here = unmasked-keeps k addr now bytes m here

  wait-keeps :
      (k addr now : ℕ) (bytes : List ℕ) (m : Host)
      → has_seen k m.recved ≡ true
      → has_seen k (wait b14 little md5 fresh mask addr now bytes m).1.recved ≡ true
  unfolding wait
  wait-keeps k addr now bytes m here = elim (Bool-cases (ltb (length bytes) 40)) [
    | inl short ↦ rw short here
    | inr long ↦ rw long (unpacked-keeps k addr now (apply_b14 b14 bytes) m here)
  ]

  after_all-keeps :
      (k : ℕ) (others : List Arrival) (m : Host)
      → has_seen k m.recved ≡ true
      → has_seen k (after_all others m).recved ≡ true
  after_all-keeps k [] m here = here
  after_all-keeps k ((addr, now, bytes) ∷ rest) m here =
      after_all-keeps k rest _ (wait-keeps k addr now bytes m here)

module _ (b14 : Option (List ℕ → Option (List ℕ))) (little : Bool) (md5 : List ℕ → List ℕ)
    (fresh : PacketBuf) (mask : ℕ) (bytes plain : List ℕ) (pb : PacketBuf)
    (long : 40 ≤ length bytes) (decoded : apply_b14 b14 bytes ≡ some plain)
    (long_plain : 40 ≤ length plain)
    (parsed : parse_packet_header little md5 fresh (or_nil (decode_xor plain mask).1) ≡ ok pb) where
  pub wait-judged :
      (addr now : ℕ) (m : Host)
      → wait b14 little md5 fresh mask addr now bytes m
        ≡ judge addr now (decode_xor plain mask).0 (or_nil (decode_xor plain mask).1) (ok pb) m
  unfolding wait unmasked
  wait-judged addr now m =
      rw (le→ltb (length bytes) 40 long, decoded, le→ltb (length plain) 40 long_plain, parsed) refl

  -- A datagram of at least 40 bytes, before and after the base16384 decoder, whose header is
  -- accepted is taken once: when it comes again after any other datagrams, from wherever and
  -- whenever while the cache keeps its mark, it is dropped as a duplicate and changes nothing.
  pub wait_twice :
      (addr now addr' now' : ℕ) (others : List Arrival) (m : Host)
      → (let later =
            after_all b14 little md5 fresh mask others
              (wait b14 little md5 fresh mask addr now bytes m).1 in
          wait b14 little md5 fresh mask addr' now' bytes later ≡ (duplicated, later))
  wait_twice addr now addr' now' others m =
      let seq = (decode_xor plain mask).0 in
      let inner = or_nil (decode_xor plain mask).1 in
      let first = (wait b14 little md5 fresh mask addr now bytes m).1 in
      let later = after_all b14 little md5 fresh mask others first in
      let mark = bit_xor seq pb.dat.md5h8 in
      let marked : has_seen mark first.recved ≡ true =
        ap (λ (r : Waited × Host). has_seen mark r.1.recved) (wait-judged addr now m)
        ∙ judge-marks addr now seq inner pb m in
      wait-judged addr' now' later
      ∙ judge-duplicated addr' now' seq inner pb later
          (after_all-keeps b14 little md5 fresh mask mark others first marked)
