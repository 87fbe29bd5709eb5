-- ===== src/P2p/Tcp/Pool/Failure.antt =====
-- gold/p2p/tcp/tcp.go: a write that fails on a connection that was dialed for the pool.
use wire_gold.Common.{
  ◌==◌, Bool-cases, length, ℕ, ◌^◌, ◌<◌, ◌≡◌, refl, sym, ap, ◌∙◌, inl, inr, Bool, true, false,
  Option, none, some, List, [], ◌∷◌, ◌++◌,
}
use mathlib.Core.Path.{subst}
use wire_gold.P2p.Pdu.{pack}
use wire_gold.P2p.Tcp.{
  Conn, Net, EndPoint, second, SubConn, at_least, peer_of, delete_peer, forget, drop_peer, delsubs,
  sub_place, with_subs, drop_at, drop_sub,
}
use wire_gold.P2p.Tcp.Write.{
  write_on, Written, lock_free, from_pool, normal_packet, written, transmit, reach, round, give_up,
  pool_tried, write_to_peer, wrote, waits,
}
use wire_gold.P2p.Tcp.Pool.{pool_dialed, pooled, to_pool, pool_hello}

peer_of-delete_peer : (key : ℕ) (peers : List (ℕ × ℕ)) → peer_of key (delete_peer key peers) ≡ none
peer_of-delete_peer key [] = refl
peer_of-delete_peer key ((k, x) ∷ rest) = elim (Bool-cases (key == k)) [
  | inl same ↦ rw same (peer_of-delete_peer key rest)
  | inr other ↦ rw (other, other) (peer_of-delete_peer key rest)
]

-- The state that a call leaves.
abbrev pub left : {W : Type 0} → Written W → Conn
left (wrote w c n e) = c
left (waits w c) = c

module _ {W : Type 0} (net : Net W) where
  drop_sub-peers : (conn : ℕ) (w : W) (c : Conn) → (drop_sub net conn w c).1.peers ≡ c.peers
  unfolding drop_sub delsubs
  drop_sub-peers conn w c = at (sub_place conn 0 c.subs)
    where
      shut : (o : Option (W × List SubConn)) → (with_subs w c o).1.peers ≡ c.peers
      shut none = refl
      shut (some (w', subs)) = refl

      at : (o : Option ℕ) → (drop_at net w c o).1.peers ≡ c.peers
      at none = refl
      at (some i) = shut (delsubs net i w c.subs)

  -- The last round over a pool of one connection does nothing to the peers.
  last_round :
      (now : ℕ) (b : List ℕ) (ep : EndPoint) (key conn : ℕ) (w : W) (c : Conn)
      → peer_of key c.peers ≡ none
      → c.subs ≡ (record { busy = false; last = now; conn = conn }) ∷ []
      → peer_of key (left (round net now b ep true (give_up now) none w c)).peers ≡ none
  unfolding round transmit
  last_round now b ep key conn w c gone one =
      let c' = record c { subs = (record { busy = true; last = now; conn = conn }) ∷ [] } in
      let put = net.put w conn (pack (normal_packet b)) in
      let result = λ (t : Bool).
        peer_of key
          (left (
            written net now (net.text ep.addr) (give_up now) (some conn) c'
              (put.0, put.1, t))).peers
        ≡ none in
      subst
        (λ (l : List SubConn).
          peer_of key
            (left (reach net now b ep true (give_up now) w (from_pool none c (lock_free l)))).peers
          ≡ none)
        (sym one)
        (elim put.2 as result [
          | true ↦ gone
          | false ↦ ap (peer_of key) (drop_sub-peers conn put.0 c') ∙ gone
        ])

  -- When WriteToPeer, with the main connection locked, an empty pool and no earlier error of it,
  -- dials a connection for the pool and the write of the packet on it fails, the peer has no main
  -- connection afterwards, whatever the second round does.
  pub pool_failure_drops_main :
      (now : ℕ) (b : List ℕ) (ep : EndPoint) (w : W) (c : Conn) (main conn : ℕ)
      → length b < 2 ^ 16
      → c.locked ≡ true
      → c.suberr ≡ false
      → c.subs ≡ []
      → peer_of (net.text ep.addr) c.peers ≡ some main
      → (net.dial w ep.addr (at_least second ep.dialtimeout)).1 ≡ some conn
      → (pool_hello net ep conn w).2 ≡ true
      → (net.put (pool_hello net ep conn w).0 conn (pack (normal_packet b))).2 ≡ false
      → peer_of (net.text ep.addr) (left (write_to_peer net now b (some ep) w c)).peers ≡ none
  unfolding write_on transmit drop_peer
  pool_failure_drops_main now b ep w c main conn short held fine empty found dials greets bad =
      let key = net.text ep.addr in
      let gone = λ (r : Written W). peer_of key (left r).peers ≡ none in
      let w1 = (pool_hello net ep conn w).0 in
      let put = net.put w1 conn (pack (normal_packet b)) in
      let again = λ (cnt : ℕ) (subc : Option ℕ) (w' : W) (c' : Conn).
        round net now b ep true (give_up now) subc w' c' in
      let c1 = pooled now conn c in
      let c2 = record c1 { peers = delete_peer key c.peers } in
      let second_round =
        last_round now b ep key conn (net.close_write put.0 main) c2
          (peer_of-delete_peer key c.peers)
          (ap (λ (l : List SubConn). l ++ ((record { busy = false; last = now; conn = conn }) ∷ []))
            empty) in
      let reached =
        to_pool net now b ep w c short held (inl fine)
        ∙ ap pool_tried (
            pool_dialed net now b ep again w c conn empty dials greets
            ∙ ap (λ (t : Bool). written net now key again none c1 (put.0, put.1, t)) bad
            ∙ ap
                (λ (o : Option ℕ).
                  let after = forget net key put.0 c1 o in again put.1 none after.0 after.1)
                found) in
      subst gone (sym reached)
        (tried (again put.1 none (net.close_write put.0 main) c2) second_round)
    where
      tried :
          (r : Written W)
          → peer_of (net.text ep.addr) (left r).peers ≡ none
          → peer_of (net.text ep.addr) (left (pool_tried r)).peers ≡ none
      tried (wrote w2 c2 n none) h = h
      tried (wrote w2 c2 n (some e)) h = h
      tried (waits w2 c2) h = h
