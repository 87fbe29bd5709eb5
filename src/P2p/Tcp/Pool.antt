-- ===== src/P2p/Tcp/Pool.antt =====
-- gold/p2p/tcp/tcp.go: writes over the pool of connections, which all peers share.
pub mod Failure
use wire_gold.Common.{
  ltb, leb, ◌==◌, if◌then◌else◌, ltb→lt, lt→ltb, leb→le, le→ltb, lt→leb, le→leb, ==_iff, ==_refl,
  Bool-cases, Option-cases, all_below, all_below_sound, length, get_elem?, get_or, set, take, drop,
  replicate, Some, All, length-append, length-take, length-drop, length-replicate, take-append-drop,
  take-append, drop-append, take-all, drop-all, drop-nil, drop-drop, take-add, All-append, All-take,
  All-drop, get_or-append_last, take_front, All-weaken, bit_or_step, bit_and-zero, bit_or-zero,
  bit_and_mask, bit_or_fields, bit_xor_cancel, bit_xor_comm, bit_or_comm, bit_or_assoc, bit_xor-lt,
  IsByte, AreBytes, put_uint, get_uint, length-put_uint, put_uint-AreBytes, get_uint-put_uint,
  get_uint-lt, put_uint-get_uint, get_uint-append, get_uint-take, get_or_ext, ℕ, zero, suc, ◌+◌,
  ◌-◌, ◌*◌, ◌/◌, ◌%◌, ◌^◌, ◌≤◌, ◌<◌, min, bit_and, bit_or, bit_xor, ◌≡◌, refl, sym, ap, ap₂, ◌∙◌,
  ◌≢◌, ◌↔◌, ◌⊎◌, inl, inr, Bool, true, false, not, ◌&&◌, ◌||◌, Option, none, some, List, [], ◌∷◌,
  ◌++◌, append_assoc, append-nil, arith, pow-suc, dec_lt, ℕ_discrete,
}
use mathlib.Core.Path.{subst}
use wire_gold.Common.Int.{ℤ, pos, sub_int}
use wire_gold.P2p.Pdu.{
  Pdu, pack, magicbuf, packet_type_keep_alive, packet_type_normal, packet_type_sub_keep_alive,
  ReadError, ReadResult, short_read, read_data, read_head, read_from, is_valid_hello, eof,
  unexpected_eof, invalid_magic, got, failed,
}
use wire_gold.P2p.Tcp.{
  Conn, Net, EndPoint, TcpAddr, second, ConnRecv, SubConn, at_least, equal, listen, peer_of,
  delete_peer, set_peer, forget, drop_peer, cut_sub, shut_sub, delsubs, sub_place, with_subs,
  drop_at, drop_sub, close,
}
use wire_gold.P2p.Tcp.Write.{
  write_on, WriteError, Written, keep_busy, lock_free, from_pool, pick, release_in, release,
  hello_packet, normal_packet, register, drop_failed, written, transmit, greeted, dialed, reach,
  round, give_up, unlock, write_main, pool_tried, is_empty, write_to_peer, type_mismatch, too_large,
  dial_failed, hello_failed, write_failed, wrote, waits,
}
use wire_gold.P2p.Tcp.Framed.{
  IsStream, put_count, IsFramed, append-IsFramed, normal-IsWhole, hello-IsWhole, delete_peer-All,
  peer_of-All, absent-All, Entry, ArePeersFramed, IsDelivered, IsSound, KeepsFramed, Reaches,
}
use wire_gold.P2p.Tcp.Receive.{
  enter, reads_from, end_of, receive_timeout, packet_type_top, leave, take_packet, unread, advance,
  next_turn, read_turn, receive_loop, entered, receive, Read, read_recv, read_from_peer, kept_main,
  keep_main, kept_sub, keep_subs, keep_interval, keep, read, closed, waiting,
}

lock_free-some :
    (subs : List SubConn) (found : ℕ × List SubConn)
    → lock_free subs ≡ some found
    → is_empty subs ≡ false
lock_free-some [] found e = absurd (cc)
lock_free-some (s ∷ rest) found e = refl

-- What stands in the pool and among the peers once an empty pool has got a connection.
abbrev pub pooled : ℕ → ℕ → Conn → Conn
pooled now conn c = register now 0 true conn c

-- The call returns no error, and of its state and count this holds.
abbrev pub Succeeds : {W : Type 0} → (W → Conn → ℤ → Type 0) → Written W → Type 0
Succeeds P (wrote w c n none) = P w c n
Succeeds P (wrote w c n (some e)) = ⊥
Succeeds P (waits w c) = ⊥

-- The network once the pool's hello packet is written on a connection that was dialed.
abbrev pub pool_hello : {W : Type 0} → Net W → EndPoint → ℕ → W → W × ℕ × Bool
pool_hello net ep conn w =
    net.put (net.dial w ep.addr (at_least second ep.dialtimeout)).0 conn (pack (hello_packet true))

-- The packet has gone out on that connection, and on none to the endpoint.
abbrev pub IsMisrouted :
    {W : Type 0} → Net W → (W → ℕ → List ℕ) → EndPoint → List ℕ → ℕ → W → W → Conn → ℤ → Type 0
IsMisrouted net sent ep b conn w w' c' n =
    (n ≡ pos (length b + 4))
    × (sent w' conn ≡ sent w conn ++ pack (normal_packet b))
    × ((x : ℕ) → net.remote x ≡ ep.addr → sent w' x ≡ sent w x)

-- A thread has been started for the connection; receive keeps it, since it was dialed, and its first
-- turn reads the main connection.
abbrev pub ReadsMain : {W : Type 0} → Net W → Conn → List ℕ → ℕ → ℕ → W → Conn → ℤ → Type 0
ReadsMain net c b conn main w' c' n =
    (n ≡ pos (length b + 4))
    × (c'.readers ≡ c.readers ++ (conn ∷ []))
    × ((later : ℕ) (valid : Bool × Bool) → enter net later conn true valid c' ≡ (some false, c'))
    × (reads_from false (net.text (end_of net c' conn).addr) conn c' ≡ some main)

module _ {W : Type 0} (net : Net W) where
  -- While the main connection is locked, WriteToPeer tries the pool.
  pub to_pool :
      (now : ℕ) (b : List ℕ) (ep : EndPoint) (w : W) (c : Conn)
      → length b < 2 ^ 16
      → c.locked ≡ true
      → (c.suberr ≡ false) ⊎ (is_empty c.subs ≡ false)
      → write_to_peer net now b (some ep) w c ≡ pool_tried (write_on net now b ep true w c)
  unfolding write_to_peer
  to_pool now b ep w c short held tries =
      let small = lt→leb 65536 (length b) (omega arith) in
      elim tries [
        | inl e ↦ simp (small, held, e) refl
        | inr e ↦ elim (Bool-cases c.suberr) [
          | inl failed_once ↦ simp (small, held, failed_once, e) refl
          | inr fine ↦ simp (small, held, fine) refl
        ]
      ]

  pub pool_dialed :
      (now : ℕ) (b : List ℕ) (ep : EndPoint) (again : ℕ → Option ℕ → W → Conn → Written W) (w : W)
      (c : Conn) (conn : ℕ)
      → c.subs ≡ []
      → (net.dial w ep.addr (at_least second ep.dialtimeout)).1 ≡ some conn
      → (net.put
          (net.dial w ep.addr (at_least second ep.dialtimeout)).0
          conn
          (pack (hello_packet true))).2
        ≡ true
      → round net now b ep true again none w c
        ≡ transmit net now
            (net.text ep.addr)
            b
            again
            none
            conn
            (net.put
              (net.dial w ep.addr (at_least second ep.dialtimeout)).0
              conn
              (pack (hello_packet true))).0
            (pooled now conn c)
  unfolding round
  pool_dialed now b ep again w c conn empty dials greets =
      let d = net.dial w ep.addr (at_least second ep.dialtimeout) in
      let put = net.put d.0 conn (pack (hello_packet true)) in
      let key = net.text ep.addr in
      ap (λ (l : List SubConn). reach net now b ep true again w (from_pool none c (lock_free l)))
        empty
      ∙ ap (λ (o : Option ℕ). dialed net now key b true again none c (d.0, o)) dials
      ∙ ap (λ (t : Bool). greeted net now key b true again none conn c (put.0, put.1, t)) greets

module _ {W : Type 0} (net : Net W) (sent : W → ℕ → List ℕ) (laws : IsStream net sent) where
  reuse_pool :
      (now : ℕ) (b : List ℕ) (ep : EndPoint) (w : W) (c : Conn) (conn : ℕ) (subs : List SubConn)
      → lock_free c.subs ≡ some (conn, subs)
      → (net.put w conn (pack (normal_packet b))).2 ≡ true
      → write_on net now b ep true w c
        ≡ wrote
            (net.put w conn (pack (normal_packet b))).0
            (release now (some conn) (record c { subs = subs }))
            (pos (length b + 4))
            none
  unfolding write_on round transmit
  reuse_pool now b ep w c conn subs first ok =
      let again = λ (cnt : ℕ) (subc : Option ℕ) (w' : W) (c' : Conn).
        round net now b ep true (give_up now) subc w' c' in
      let put = net.put w conn (pack (normal_packet b)) in
      ap (λ (o : Option (ℕ × List SubConn)). reach net now b ep true again w (from_pool none c o))
        first
      ∙ ap
          (λ (t : Bool).
            written net now (net.text ep.addr) again (some conn) (record c { subs = subs })
              (put.0, put.1, t))
          ok
      ∙ ap (λ (n : ℤ). wrote put.0 (release now (some conn) (record c { subs = subs })) n none)
          (put_count put.1 b (laws.put_whole w conn (pack (normal_packet b)) ok).1)

  -- While the main connection is locked, WriteToPeer sends data shorter than 2^16 bytes over the
  -- first connection of the pool that is free, although its far end is another address than the
  -- endpoint: the call returns no error when the write succeeds, and no connection to the endpoint
  -- gets anything.
  pub pool_write_misroutes :
      (now : ℕ) (b : List ℕ) (ep : EndPoint) (w : W) (c : Conn) (conn : ℕ) (subs : List SubConn)
      → length b < 2 ^ 16
      → c.locked ≡ true
      → lock_free c.subs ≡ some (conn, subs)
      → net.remote conn ≢ ep.addr
      → (net.put w conn (pack (normal_packet b))).2 ≡ true
      → Succeeds (IsMisrouted net sent ep b conn w) (write_to_peer net now b (some ep) w c)
  pool_write_misroutes now b ep w c conn subs short held first foreign ok =
      let reached =
        to_pool net now b ep w c short held (inr (lock_free-some c.subs (conn, subs) first))
        ∙ ap pool_tried (reuse_pool now b ep w c conn subs first ok) in
      let packet = pack (normal_packet b) in
      subst (Succeeds (IsMisrouted net sent ep b conn w)) (sym reached) (
        refl,
        (laws.put_whole w conn packet ok).0,
        λ (x : ℕ) (own : net.remote x ≡ ep.addr).
            laws.put_other w conn packet x
              (λ (same : x ≡ conn). foreign (ap net.remote (sym same) ∙ own)),
      )

  -- When WriteToPeer, with the main connection locked, an empty pool and no earlier error of it,
  -- dials a connection for the pool and the writes on it succeed, and the address of the endpoint
  -- is the far end of that connection, the thread that it starts for that connection reads the
  -- main connection of the peer instead, if there is one.
  pub pool_dial-ReadsMain :
      (now : ℕ) (b : List ℕ) (ep : EndPoint) (w : W) (c : Conn) (main conn : ℕ)
      → length b < 2 ^ 16
      → c.is_open ≡ true
      → c.locked ≡ true
      → c.suberr ≡ false
      → c.subs ≡ []
      → peer_of (net.text ep.addr) c.peers ≡ some main
      → (net.dial w ep.addr (at_least second ep.dialtimeout)).1 ≡ some conn
      → net.remote conn ≡ ep.addr
      → (pool_hello net ep conn w).2 ≡ true
      → (net.put (pool_hello net ep conn w).0 conn (pack (normal_packet b))).2 ≡ true
      → Succeeds (ReadsMain net c b conn main) (write_to_peer net now b (some ep) w c)
  unfolding write_on transmit enter end_of
  pool_dial-ReadsMain now b ep w c main conn short open' held fine empty found dials reached_end
        greets ok =
      let w1 = (pool_hello net ep conn w).0 in
      let put = net.put w1 conn (pack (normal_packet b)) in
      let again = λ (cnt : ℕ) (subc : Option ℕ) (w' : W) (c' : Conn).
        round net now b ep true (give_up now) subc w' c' in
      let entry : Bool → Option Bool × Conn =
        λ (t : Bool). (if t then some false else none, pooled now conn c) in
      let reached =
        to_pool net now b ep w c short held (inl fine)
        ∙ ap pool_tried (
            pool_dialed net now b ep again w c conn empty dials greets
            ∙ ap
                (λ (t : Bool).
                  written net now (net.text ep.addr) again none (pooled now conn c)
                    (put.0, put.1, t))
                ok) in
      subst (Succeeds (ReadsMain net c b conn main)) (sym reached) (
        put_count put.1 b (laws.put_whole w1 conn (pack (normal_packet b)) ok).1,
        refl,
        λ (later : ℕ) (valid : Bool × Bool). ap entry open',
        ap (λ (a : TcpAddr). peer_of (net.text a) c.peers) reached_end ∙ found,
      )
