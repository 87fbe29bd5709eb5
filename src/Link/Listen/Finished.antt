-- ===== src/Link/Listen/Finished.antt =====
-- gold/link/listen.go: waitordispatch passes complete packets on.
use wire_gold.Common.{
  ltb, ◌==◌, if◌then◌else◌, Bool-cases, length, drop, get_uint, ℕ, ◌+◌, ◌-◌, ◌%◌, ◌^◌, min, bit_xor,
  ◌≡◌, refl, sym, ap, ◌∙◌, ◌≢◌, inl, inr, Bool, true, false, not, Option, none, some, List, ◌∷◌,
}
use mathlib.Core.Path.{subst}
use wire_gold.Head.Packet.{Packet, PacketBuf, has_finished, packet_head_len, dec_ttl}
use wire_gold.Common.Int.{sub_int}
use wire_gold.Algo.Xor.{decode_xor}
use wire_gold.Head.Flags.{has_more}
use wire_gold.Head.Unbox.{
  write_data_segment, Result, parse_packet_header, set_zero_offset, copy_at, ok, err,
}
use wire_gold.Link.Router.{is_to_me, next_hop}
use wire_gold.Link.Dispatch.{Peer, ip_number, extract_peer, dispatch}
use wire_gold.Link.Recv.{
  Host, Waited, has_seen, get_or_set, collected, collect, whole, remember, hand_over, transfer,
  admit_from, admit, judge, or_nil, unmasked, unpacked, apply_b14, wait, invalid_len, bad_base14,
  bad_header, duplicated, unknown_source, trans_refused, nil_nexthop, zero_ttl, unexpected,
  waiting_parts, panicked, forwarded, arrived,
}
use wire_gold.Link.Listen.{wait_or_dispatch, Decoders, with_me, hand_on, unfinished}

-- What wait hands on is complete.
abbrev IsComplete : Waited × Host → Type 0
IsComplete (arrived pb, m) = has_finished pb.dat ≡ true
IsComplete (w, m) = Unit {0}

abbrev IsSound : Option (Bool × Packet × List ℕ) → Type 0
IsSound none = Unit {0}
IsSound (some (true, p, buf)) = has_finished p ≡ true
IsSound (some (false, p, buf)) = Unit {0}

answer-IsSound :
    (b : Bool) (p : Packet) (buf : List ℕ) → has_finished p ≡ b → IsSound (some (b, p, buf))
answer-IsSound true p buf h = h
answer-IsSound false p buf h = tt

write_data_segment-IsSound :
    (p : Packet) (bytes buf : List ℕ) → IsSound (write_data_segment p bytes buf)
unfolding write_data_segment
write_data_segment-IsSound p bytes buf =
    let offset = get_uint 2 (drop 14 bytes) in
    let q = if offset == 0 then set_zero_offset p bytes else p in
    let payload = drop packet_head_len bytes in
    let r = record q { hashrem = sub_int q.hashrem (min (length buf - offset) (length payload)) } in
    let result : Bool → Bool → Option (Bool × Packet × List ℕ) = λ (done past : Bool).
      if done
      then some (true, p, buf)
      else if past
      then none
      else some (has_finished r, r, copy_at buf offset payload) in
    elim (Bool-cases (has_finished p)) [
      | inl done ↦
          subst (λ (t : Bool). IsSound (result t (ltb (length buf) offset))) (sym done) done
      | inr open' ↦
          subst (λ (t : Bool). IsSound (result t (ltb (length buf) offset))) (sym open')
            (elim (ltb (length buf) offset) as (λ (t : Bool). IsSound (result false t)) [
              | true ↦ tt
              | false ↦ answer-IsSound (has_finished r) r (copy_at buf offset payload) refl
            ])
    ]

whole-IsComplete :
    (m : Host) (o : Option (Bool × Packet × List ℕ)) → IsSound o → IsComplete (whole m o)
whole-IsComplete m none h = tt
whole-IsComplete m (some (true, p, buf)) h = h
whole-IsComplete m (some (false, p, buf)) h = tt

collected-IsComplete :
    (m : Host) (k : ℕ) (o : Option (Bool × Packet × List ℕ))
    → IsSound o
    → IsComplete (collected m k o)
unfolding collected
collected-IsComplete m k none h = tt
collected-IsComplete m k (some (true, p, buf)) h = h
collected-IsComplete m k (some (false, p, buf)) h = tt

transfer-IsComplete :
    (p : Peer) (seq : ℕ) (bytes : List ℕ) (header : Packet) (m : Host)
    → IsComplete (transfer p seq bytes header m)
unfolding transfer hand_over
transfer-IsComplete p seq bytes header m =
    let hop = next_hop (m.cache (ip_number header.dst)) (some (ip_number header.dst)) m.router in
    let next = record m { cache = remember hop.1 m.cache } in
    elim (not p.allowtrans)
      as (λ (t : Bool).
        IsComplete (if t then (trans_refused, m) else hand_over seq bytes next hop.0)) [
          | true ↦ tt
          | false ↦ handed hop.0 next
        ]
  where
    handed : (link : Option ℕ) (h : Host) → IsComplete (hand_over seq bytes h link)
    handed none h = tt
    handed (some link) h =
        elim (dec_ttl bytes).0
          as (λ (t : Bool).
            IsComplete (if t then (zero_ttl, h) else (forwarded link seq (dec_ttl bytes).1, h))) [
              | true ↦ tt
              | false ↦ tt
            ]

admit_from-IsComplete :
    (p : Option Peer) (seq : ℕ) (bytes : List ℕ) (pb : PacketBuf) (m : Host)
    → IsComplete (admit_from p seq bytes pb m)
unfolding admit_from collect
admit_from-IsComplete none seq bytes pb m = tt
admit_from-IsComplete (some p) seq bytes pb m =
    let h = get_or_set (seq % 2 ^ 16) pb m.recving in
    let result = λ (away more : Bool).
      if away
      then transfer p seq bytes pb.dat m
      else if more
      then whole m (write_data_segment pb.dat bytes pb.buffer)
      else collect seq bytes pb m in
    elim (not (is_to_me m.host.me m.host.subnet (ip_number pb.dat.dst)))
      as (λ (t : Bool). IsComplete (result t (not (has_more pb.dat.proto)))) [
        | true ↦ transfer-IsComplete p seq bytes pb.dat m
        | false ↦
            elim (not (has_more pb.dat.proto)) as (λ (t : Bool). IsComplete (result false t)) [
              | true ↦
                  whole-IsComplete m (write_data_segment pb.dat bytes pb.buffer)
                    (write_data_segment-IsSound pb.dat bytes pb.buffer)
              | false ↦
                  collected-IsComplete m (seq % 2 ^ 16) (write_data_segment h.dat bytes h.buffer)
                    (write_data_segment-IsSound h.dat bytes h.buffer)
            ]
      ]

judge-IsComplete :
    (addr now seq : ℕ) (bytes : List ℕ) (r : Result PacketBuf) (m : Host)
    → IsComplete (judge addr now seq bytes r m)
unfolding judge admit
judge-IsComplete addr now seq bytes (err e) m = tt
judge-IsComplete addr now seq bytes (ok pb) m =
    let mark = bit_xor seq pb.dat.md5h8 in
    let next = record m { recved = mark ∷ m.recved } in
    elim (has_seen mark m.recved)
      as (λ (t : Bool).
        IsComplete (if t then (duplicated, m) else admit addr now seq bytes pb next)) [
          | true ↦ tt
          | false ↦
              admit_from-IsComplete (extract_peer addr now pb.dat.src next.host).0 seq bytes pb
                (record next { host = (extract_peer addr now pb.dat.src next.host).1 })
        ]

wait-IsComplete :
    (b14 : Option (List ℕ → Option (List ℕ))) (little : Bool) (md5 : List ℕ → List ℕ)
    (fresh : PacketBuf) (mask addr now : ℕ) (bytes : List ℕ) (m : Host)
    → IsComplete (wait b14 little md5 fresh mask addr now bytes m)
unfolding wait unmasked
wait-IsComplete b14 little md5 fresh mask addr now bytes m =
    elim (ltb (length bytes) (packet_head_len + 8))
      as (λ (t : Bool). IsComplete (
        if t
        then (invalid_len, m)
        else unpacked little md5 fresh mask addr now (apply_b14 b14 bytes) m)) [
          | true ↦ tt
          | false ↦ decoded (apply_b14 b14 bytes)
        ]
  where
    decoded : (o : Option (List ℕ)) → IsComplete (unpacked little md5 fresh mask addr now o m)
    decoded none = tt
    decoded (some plain) =
        let r = decode_xor plain mask in
        elim (ltb (length plain) (packet_head_len + 8))
          as (λ (t : Bool). IsComplete (
            if t
            then (invalid_len, m)
            else judge addr now r.0 (or_nil r.1) (parse_packet_header little md5 fresh (or_nil r.1))
                m)) [
                  | true ↦ tt
                  | false ↦
                      judge-IsComplete addr now r.0 (or_nil r.1)
                        (parse_packet_header little md5 fresh (or_nil r.1)) m
                ]

-- Whatever datagram comes, in whatever state, the packet that waitordispatch passes to dispatch is
-- not marked as unfinished, by its count of bytes, so the panic on an unfinished packet is never
-- reached.
pub wait_or_dispatch_complete :
    (d : Decoders) (fresh : PacketBuf) (mask addr now : ℕ) (bytes : List ℕ) (m : Host)
    → (wait_or_dispatch d fresh mask addr now bytes m).0 ≢ unfinished
unfolding wait_or_dispatch
wait_or_dispatch_complete d fresh mask addr now bytes m =
    handed (wait d.b14 d.little d.md5 fresh mask addr now bytes m)
      (wait-IsComplete d.b14 d.little d.md5 fresh mask addr now bytes m)
  where
    handed : (r : Waited × Host) → IsComplete r → (hand_on d addr now r).0 ≢ unfinished
    handed (arrived pb, h) complete e =
        let verdict =
          dispatch d.little d.md5 d.blake d.unzstd d.registered addr now pb.dat pb.buffer h.host in
        let passed =
          ap (λ (t : Bool). (if not t then (unfinished, h) else with_me h verdict).0) (sym complete)
          ∙ e in
        absurd (cc)
    handed (invalid_len, h) complete e = absurd (cc)
    handed (bad_base14, h) complete e = absurd (cc)
    handed (bad_header, h) complete e = absurd (cc)
    handed (duplicated, h) complete e = absurd (cc)
    handed (unknown_source, h) complete e = absurd (cc)
    handed (trans_refused, h) complete e = absurd (cc)
    handed (nil_nexthop, h) complete e = absurd (cc)
    handed (zero_ttl, h) complete e = absurd (cc)
    handed (unexpected, h) complete e = absurd (cc)
    handed (waiting_parts, h) complete e = absurd (cc)
    handed (panicked, h) complete e = absurd (cc)
    handed (forwarded link seq sent, h) complete e = absurd (cc)
