-- ===== src/P2p/Tcp/Framed/Transmit.antt =====
-- gold/p2p/tcp/tcp.go: the write of a packet on a main connection, and what follows its failure.
use wire_gold.Common.{
  ◌==◌, ==_iff, Bool-cases, length, All, All-weaken, ℕ, ◌^◌, ◌<◌, ◌≡◌, sym, ap, ◌∙◌, ◌≢◌, inl, inr,
  Bool, true, false, Option, none, some, List, ℕ_discrete,
}
use mathlib.Core.Path.{subst}
use wire_gold.P2p.Pdu.{Pdu, pack}
use wire_gold.P2p.Tcp.{Conn, Net, peer_of, delete_peer, forget, drop_peer}
use wire_gold.P2p.Tcp.Write.{Written, normal_packet, written, transmit}
use wire_gold.P2p.Tcp.Delivery.{IsWhole}
use wire_gold.P2p.Tcp.Framed.{
  IsStream, IsFramed, append-IsFramed, normal-IsWhole, put_count, delete_peer-All, peer_of-All,
  Entry, ArePeersFramed, IsSound, KeepsFramed,
}

module _ {W : Type 0} (net : Net W) (sent : W → ℕ → List ℕ) (laws : IsStream net sent) where
  -- A write without error of a whole packet.
  pub put-Entry :
      (w : W) (conn : ℕ) (p : Pdu) (k x : ℕ)
      → (net.put w conn (pack p)).2 ≡ true
      → IsWhole p
      → Entry net sent w (k, x)
      → Entry net sent (net.put w conn (pack p)).0 (k, x)
  put-Entry w conn p k x ok whole entry = elim (ℕ_discrete x conn) [
    | yes same ↦ (
      entry.0,
      subst (λ (y : ℕ). IsFramed (sent (net.put w conn (pack p)).0 y)) (sym same)
          (subst IsFramed (sym (laws.put_whole w conn (pack p) ok).0) (
            append-IsFramed (sent w conn) p (subst (λ (y : ℕ). IsFramed (sent w y)) same entry.1)
              whole)),
    )
    | no other ↦ (entry.0, subst IsFramed (sym (laws.put_other w conn (pack p) x other)) entry.1)
  ]

  -- A connection under another key is another connection.
  pub other-conn :
      (key conn k x : ℕ)
      → key ≡ net.text (net.remote conn)
      → (key == k) ≡ false
      → k ≡ net.text (net.remote x)
      → x ≢ conn
  other-conn key conn k x own other named same =
      let shown : k ≡ key = named ∙ ap (λ (y : ℕ). net.text (net.remote y)) same ∙ sym own in
      let equal' = (==_iff key k).1 (sym shown) in cc

  -- A failed write takes its connection out of the peers.
  pub drop_peer-framed :
      (w : W) (key conn : ℕ) (bytes : List ℕ) (c : Conn)
      → peer_of key c.peers ≡ some conn
      → ArePeersFramed net sent w c
      → (let after = drop_peer net key (net.put w conn bytes).0 c in
          ArePeersFramed net sent after.0 after.1)
  unfolding drop_peer
  drop_peer-framed w key conn bytes c found framed =
      let w' = net.close_write (net.put w conn bytes).0 conn in
      let entry = peer_of-All (Entry net sent w) key conn c.peers found framed in
      let left : All (Entry net sent w') (delete_peer key c.peers) =
        delete_peer-All (Entry net sent w) (Entry net sent w') key c.peers
          (λ (k x : ℕ) (other : (key == k) ≡ false) (old : Entry net sent w (k, x)). (
            old.0,
            subst IsFramed
                (sym (
                  laws.close_keeps (net.put w conn bytes).0 conn x
                  ∙ laws.put_other w conn bytes x (other-conn key conn k x entry.0 other old.0)))
                old.1,
          ))
          framed in
      subst
        (λ (o : Option ℕ).
          let after = forget net key (net.put w conn bytes).0 c o in
          ArePeersFramed net sent after.0 after.1)
        (sym found) left

  pub transmit-framed :
      (now key : ℕ) (b : List ℕ) (again : ℕ → Option ℕ → W → Conn → Written W) (conn : ℕ) (w : W)
      (c : Conn)
      → length b < 2 ^ 16
      → KeepsFramed net sent key b again
      → peer_of key c.peers ≡ some conn
      → ArePeersFramed net sent w c
      → IsSound net sent key b (transmit net now key b again none conn w c)
  unfolding transmit
  transmit-framed now key b again conn w c short keeps found framed =
      let put = net.put w conn (pack (normal_packet b)) in
      elim (Bool-cases put.2) [
        | inl ok ↦
            subst
              (λ (t : Bool).
                IsSound net sent key b (written net now key again none c (put.0, put.1, t)))
              (sym ok)
              ((
                All-weaken (Entry net sent w) (Entry net sent put.0) c.peers
                    (λ (kx : ℕ × ℕ) (entry : Entry net sent w kx).
                      put-Entry w conn (normal_packet b) kx.0 kx.1 ok (normal-IsWhole b short)
                        entry)
                    framed,
                (
                  conn,
                  sent w conn,
                  found,
                  (laws.put_whole w conn (pack (normal_packet b)) ok).0,
                  put_count put.1 b (laws.put_whole w conn (pack (normal_packet b)) ok).1,
                ),
              ))
        | inr bad ↦
            subst
              (λ (t : Bool).
                IsSound net sent key b (written net now key again none c (put.0, put.1, t)))
              (sym bad)
              (keeps put.1 _ _
                (drop_peer-framed w key conn (pack (normal_packet b)) c found framed))
      ]
