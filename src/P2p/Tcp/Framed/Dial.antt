-- ===== src/P2p/Tcp/Framed/Dial.antt =====
-- gold/p2p/tcp/tcp.go: dialing, and WriteToPeer as a whole, on the main connections.
use wire_gold.Common.{
  leb, ◌==◌, if◌then◌else◌, ==_refl, Bool-cases, Option-cases, length, All-weaken, ℕ, ◌^◌, ◌<◌, ◌≡◌,
  sym, ap, ◌∙◌, ◌≢◌, inl, inr, Bool, true, false, Option, none, some, List, [], arith,
}
use mathlib.Core.Path.{subst}
use wire_gold.P2p.Pdu.{pack}
use wire_gold.P2p.Tcp.{Conn, Net, peer_of, delete_peer, EndPoint, second, at_least}
use wire_gold.P2p.Tcp.Write.{
  Written, hello_packet, wrote, waits, register, greeted, dialed, reach, round, give_up, write_on,
  unlock, write_main, write_to_peer,
}
use wire_gold.P2p.Tcp.Framed.{
  IsStream, Reaches, IsFramed, hello-IsWhole, delete_peer-All, absent-All, Entry, ArePeersFramed,
  IsSound, KeepsFramed,
}
use wire_gold.P2p.Tcp.Framed.Transmit.{put-Entry, other-conn, transmit-framed}

module _ {W : Type 0} (net : Net W) (sent : W → ℕ → List ℕ) (laws : IsStream net sent)
    (ep : EndPoint) (reaches : Reaches net ep.addr) where
  -- Dialing, and whatever is then written on the new connection, leaves the others as they were.
  dial-framed :
      (w : W) (timeout conn : ℕ) (c : Conn)
      → peer_of (net.text ep.addr) c.peers ≡ none
      → (net.dial w ep.addr timeout).1 ≡ some conn
      → ArePeersFramed net sent w c
      → (let w' = (net.dial w ep.addr timeout).0 in
          (bytes : List ℕ) → ArePeersFramed net sent (net.put w' conn bytes).0 c)
  dial-framed w timeout conn c absent dials framed bytes =
      let w' = (net.dial w ep.addr timeout).0 in
      absent-All (Entry net sent w) (Entry net sent (net.put w' conn bytes).0) (net.text ep.addr)
        c.peers
        (λ (k x : ℕ) (other : (net.text ep.addr == k) ≡ false) (old : Entry net sent w (k, x)).
          let apart : x ≢ conn =
            other-conn net sent laws (net.text ep.addr) conn k x
              (ap net.text (sym (reaches w timeout conn dials))) other old.0 in
          let not_dialed : (net.dial w ep.addr timeout).1 ≢ some x =
            λ (e : (net.dial w ep.addr timeout).1 ≡ some x).
              let joined = sym e ∙ dials in apart (cc) in
          (
            old.0,
            subst IsFramed
                (sym (
                  laws.put_other w' conn bytes x apart
                  ∙ laws.dial_other w ep.addr timeout x not_dialed))
                old.1,
          ))
        absent framed

  -- The new connection is one of the peers once its first packet is written.
  register-framed :
      (now : ℕ) (w : W) (timeout conn : ℕ) (c : Conn)
      → peer_of (net.text ep.addr) c.peers ≡ none
      → (net.dial w ep.addr timeout).1 ≡ some conn
      → (net.put (net.dial w ep.addr timeout).0 conn (pack (hello_packet false))).2 ≡ true
      → ArePeersFramed net sent w c
      → ArePeersFramed net sent
          (net.put (net.dial w ep.addr timeout).0 conn (pack (hello_packet false))).0
          (register now (net.text ep.addr) false conn c)
  register-framed now w timeout conn c absent dials ok framed =
      let w' = (net.dial w ep.addr timeout).0 in
      let new = laws.dial_new w ep.addr timeout conn dials in
      let started : IsFramed (sent w' conn) = record { packets = []; wholes = tt; bytes = new } in
      let w2 = (net.put w' conn (pack (hello_packet false))).0 in
      (
        put-Entry net sent laws w' conn (hello_packet false) (net.text ep.addr) conn ok
            (hello-IsWhole false) (ap net.text (sym (reaches w timeout conn dials)), started),
        delete_peer-All (Entry net sent w2) (Entry net sent w2) (net.text ep.addr) c.peers
            (λ (k x : ℕ) (other : (net.text ep.addr == k) ≡ false) (old : Entry net sent w2 (k, x)).
              old)
            (dial-framed w timeout conn c absent dials framed (pack (hello_packet false))),
      )

  greeted-framed :
      (now : ℕ) (b : List ℕ) (again : ℕ → Option ℕ → W → Conn → Written W) (w : W)
      (timeout conn : ℕ) (c : Conn)
      → length b < 2 ^ 16
      → KeepsFramed net sent (net.text ep.addr) b again
      → peer_of (net.text ep.addr) c.peers ≡ none
      → (net.dial w ep.addr timeout).1 ≡ some conn
      → ArePeersFramed net sent w c
      → IsSound net sent (net.text ep.addr) b (
          greeted net now
            (net.text ep.addr)
            b
            false
            again
            none
            conn
            c
            (net.put (net.dial w ep.addr timeout).0 conn (pack (hello_packet false))))
  greeted-framed now b again w timeout conn c short keeps absent dials framed =
      let put = net.put (net.dial w ep.addr timeout).0 conn (pack (hello_packet false)) in
      let key = net.text ep.addr in
      let result = λ (t : Bool).
        IsSound net sent (net.text ep.addr) b
          (greeted net now key b false again none conn c (put.0, put.1, t)) in
      elim (Bool-cases put.2) [
        | inl ok ↦ subst result (sym ok) (
            transmit-framed net sent laws now key b again conn put.0 (register now key false conn c)
              short keeps
              (ap (λ (t : Bool). if t then some conn else peer_of key (delete_peer key c.peers))
                (==_refl key))
              (register-framed now w timeout conn c absent dials ok framed))
        | inr bad ↦
            subst result (sym bad)
              (dial-framed w timeout conn c absent dials framed (pack (hello_packet false)))
      ]

  dialed-framed :
      (now : ℕ) (b : List ℕ) (again : ℕ → Option ℕ → W → Conn → Written W) (w : W) (timeout : ℕ)
      (c : Conn)
      → length b < 2 ^ 16
      → KeepsFramed net sent (net.text ep.addr) b again
      → peer_of (net.text ep.addr) c.peers ≡ none
      → ArePeersFramed net sent w c
      → IsSound net sent
          (net.text ep.addr)
          b
          (dialed net now (net.text ep.addr) b false again none c (net.dial w ep.addr timeout))
  dialed-framed now b again w timeout c short keeps absent framed =
      let d = net.dial w ep.addr timeout in
      let result = λ (o : Option ℕ).
        IsSound net sent (net.text ep.addr) b
          (dialed net now (net.text ep.addr) b false again none c (d.0, o)) in
      elim (Option-cases d.1) [
        | inl refused ↦ subst result (sym refused) (
            All-weaken (Entry net sent w) (Entry net sent d.0) c.peers
              (λ (kx : ℕ × ℕ) (old : Entry net sent w kx). (
                old.0,
                subst IsFramed
                    (sym (
                      laws.dial_other w ep.addr timeout kx.1
                        (λ (e : d.1 ≡ some kx.1). let joined = sym refused ∙ e in absurd (cc))))
                    old.1,
              ))
              framed)
        | inr (conn, dials) ↦
            subst result (sym dials)
              (greeted-framed now b again w timeout conn c short keeps absent dials framed)
      ]

  round-framed :
      (now : ℕ) (b : List ℕ) (again : ℕ → Option ℕ → W → Conn → Written W) (w : W) (c : Conn)
      → length b < 2 ^ 16
      → KeepsFramed net sent (net.text ep.addr) b again
      → ArePeersFramed net sent w c
      → IsSound net sent (net.text ep.addr) b (round net now b ep false again none w c)
  unfolding round
  round-framed now b again w c short keeps framed =
      let result = λ (o : Option ℕ).
        IsSound net sent (net.text ep.addr) b (reach net now b ep false again w (o, none, c)) in
      elim (Option-cases (peer_of (net.text ep.addr) c.peers)) [
        | inl absent ↦ subst result (sym absent) (
            dialed-framed now b again w (at_least second ep.dialtimeout) c short keeps absent
              framed)
        | inr (conn, found) ↦ subst result (sym found) (
            transmit-framed net sent laws now (net.text ep.addr) b again conn w c short keeps found
              framed)
      ]

  pub write_main-framed :
      (now : ℕ) (b : List ℕ) (w : W) (c : Conn)
      → length b < 2 ^ 16
      → ArePeersFramed net sent w c
      → IsSound net sent (net.text ep.addr) b (write_main net now b ep w c)
  unfolding write_main write_on
  write_main-framed now b w c short framed = unlocked _ (
      round-framed now b
        (λ (cnt : ℕ) (subc : Option ℕ) (w' : W) (c' : Conn).
          round net now b ep false (give_up now) subc w' c')
        w (record c { locked = true }) short
        (λ (cnt : ℕ) (w' : W) (c' : Conn) (h : ArePeersFramed net sent w' c').
          round-framed now b (give_up now) w' c' short
            (λ (cnt' : ℕ) (w2 : W) (c2 : Conn) (h2 : ArePeersFramed net sent w2 c2). h2) h)
        framed)
    where
      unlocked :
          (r : Written W)
          → IsSound net sent (net.text ep.addr) b r
          → IsSound net sent (net.text ep.addr) b (unlock r)
      unlocked (wrote w c n none) h = h
      unlocked (wrote w c n (some e)) h = h
      unlocked (waits w c) h = h

  -- Whatever fails, WriteToPeer, while the lock of the main connection is free, leaves main
  -- connections that carry whole packets only, each under the address of its far end, when they
  -- were so before; if it returns no error, the packet is the last on the main connection of its
  -- peer, and the count is four more than the bytes of the data. A connection dialed to the
  -- address of the endpoint has it as its far end, as package net has it for hosts that are
  -- specified, and nothing was sent on it. A write without error gives all its bytes to its
  -- connection, and no write or dialing touches another one.
  pub write_to_peer-IsSound :
      (now : ℕ) (b : List ℕ) (w : W) (c : Conn)
      → c.locked ≡ false
      → ArePeersFramed net sent w c
      → IsSound net sent (net.text ep.addr) b (write_to_peer net now b (some ep) w c)
  unfolding write_to_peer
  write_to_peer-IsSound now b w c free framed = elim (Bool-cases (leb 65536 (length b))) [
    | inl large ↦ rw large framed
    | inr small ↦
        let short : length b < 2 ^ 16 = ground arith in
        simp (small, free) (write_main-framed now b w c short framed)
  ]
