-- ===== src/P2p/Tcp/Write.antt =====
-- gold/p2p/tcp/tcp.go: writeToPeer and WriteToPeer.
use wire_gold.Common.{
  leb, ◌==◌, if◌then◌else◌, length, ℕ, ◌%◌, ◌^◌, Bool, true, false, not, ◌||◌, Option, none, some,
  List, [], ◌∷◌, ◌++◌,
}
use wire_gold.Common.Int.{ℤ, pos, sub_int}
use wire_gold.P2p.Pdu.{
  Pdu, pack, packet_type_keep_alive, packet_type_normal, packet_type_sub_keep_alive,
}
use wire_gold.P2p.Tcp.{
  EndPoint, Net, Conn, SubConn, second, at_least, peer_of, set_peer, drop_peer, drop_sub,
}

pub data WriteError : Type 0 where
  type_mismatch too_large dial_failed hello_failed write_failed : WriteError

-- What a call returns, in the state that it leaves: the count, an int, and the error; or it waits
-- for the lock of the main connection, which another call holds.
pub data Written (W : Type 0) : Type 0 where
  wrote : W → Conn → ℤ → Option WriteError → Written W
  waits : W → Conn → Written W

abbrev pub keep_busy : SubConn → Option (ℕ × List SubConn) → Option (ℕ × List SubConn)
keep_busy s none = none
keep_busy s (some (conn, subs)) = some (conn, s ∷ subs)

-- The first connection of the pool whose lock is free, which is taken.
abbrev pub lock_free : List SubConn → Option (ℕ × List SubConn)
lock_free [] = none
lock_free (s ∷ rest) =
    let later = keep_busy s (lock_free rest) in
    if s.busy then later else some (s.conn, record s { busy = true } ∷ rest)

-- The connection to write to, if there is one, and the locked one of the pool, `subc`, which keeps
-- its value where no other is found.
abbrev pub from_pool : Option ℕ → Conn → Option (ℕ × List SubConn) → Option ℕ × Option ℕ × Conn
from_pool subc c none = (none, subc, c)
from_pool subc c (some (conn, subs)) = (some conn, some conn, record c { subs = subs })

abbrev pub pick : Bool → ℕ → Option ℕ → Conn → Option ℕ × Option ℕ × Conn
pick true key subc c = from_pool subc c (lock_free c.subs)
pick false key subc c = (peer_of key c.peers, subc, c)

-- subc.last = now and its lock is given back.
abbrev pub release_in : ℕ → ℕ → List SubConn → List SubConn
release_in now conn [] = []
release_in now conn (s ∷ rest) =
    let others = release_in now conn rest in
    if s.conn == conn then record s { busy = false; last = now } ∷ others else s ∷ others

abbrev pub release : ℕ → Option ℕ → Conn → Conn
release now none c = c
release now (some conn) c = record c { subs = release_in now conn c.subs }

abbrev pub hello_packet : Bool → Pdu
hello_packet issub = record {
  typ = if issub then packet_type_sub_keep_alive else packet_type_keep_alive;
  len = 0;
  dat = [];
}

abbrev pub normal_packet : List ℕ → Pdu
normal_packet b = record { typ = packet_type_normal; len = length b % 2 ^ 16; dat = b }

-- A connection that was dialed goes to the peers or the pool, and a thread reads it.
abbrev pub register : ℕ → ℕ → Bool → ℕ → Conn → Conn
register now key false conn c = record c {
  peers = set_peer key conn c.peers;
  readers = c.readers ++ (conn ∷ []);
}
register now key true conn c = record c {
  subs = c.subs ++ ((record { busy = false; last = now; conn = conn }) ∷ []);
  readers = c.readers ++ (conn ∷ []);
}

-- A failed write drops the peer's main connection where no connection of the pool is locked, and
-- the locked one else.
abbrev pub drop_failed : {W : Type 0} → Net W → ℕ → Option ℕ → W → Conn → W × Conn
drop_failed net key none w c = drop_peer net key w c
drop_failed net key (some conn) w c = drop_sub net conn w c

-- The rest of one round once the packet is written. `again` is what follows a failed write, from
-- its count: the second round, or the return.
abbrev pub written :
    {W : Type 0}
    → Net W
    → ℕ
    → ℕ
    → (ℕ → Option ℕ → W → Conn → Written W)
    → Option ℕ
    → Conn
    → W × ℕ × Bool
    → Written W
written net now key again subc c (w, cnt, true) =
    wrote w (release now subc c) (sub_int (pos cnt) 3) none
written net now key again subc c (w, cnt, false) =
    let (w', c') = drop_failed net key subc w c in again cnt subc w' c'

unfoldable pub transmit :
    {W : Type 0}
    → Net W
    → ℕ
    → ℕ
    → List ℕ
    → (ℕ → Option ℕ → W → Conn → Written W)
    → Option ℕ
    → ℕ
    → W
    → Conn
    → Written W
transmit net now key b again subc conn w c =
    written net now key again subc c (net.put w conn (pack (normal_packet b)))

-- After the first packet on a connection that was dialed.
abbrev pub greeted :
    {W : Type 0}
    → Net W
    → ℕ
    → ℕ
    → List ℕ
    → Bool
    → (ℕ → Option ℕ → W → Conn → Written W)
    → Option ℕ
    → ℕ
    → Conn
    → W × ℕ × Bool
    → Written W
greeted net now key b issub again subc conn c (w, cnt, false) =
    wrote w c (pos 0) (some hello_failed)
greeted net now key b issub again subc conn c (w, cnt, true) =
    transmit net now key b again subc conn w (register now key issub conn c)

abbrev pub dialed :
    {W : Type 0}
    → Net W
    → ℕ
    → ℕ
    → List ℕ
    → Bool
    → (ℕ → Option ℕ → W → Conn → Written W)
    → Option ℕ
    → Conn
    → W × Option ℕ
    → Written W
dialed net now key b issub again subc c (w, none) = wrote w c (pos 0) (some dial_failed)
dialed net now key b issub again subc c (w, some conn) =
    greeted net now key b issub again subc conn c (net.put w conn (pack (hello_packet issub)))

abbrev pub reach :
    {W : Type 0}
    → Net W
    → ℕ
    → List ℕ
    → EndPoint
    → Bool
    → (ℕ → Option ℕ → W → Conn → Written W)
    → W
    → Option ℕ × Option ℕ × Conn
    → Written W
reach net now b ep issub again w (some conn, subc, c) =
    transmit net now (net.text ep.addr) b again subc conn w c
reach net now b ep issub again w (none, subc, c) =
    dialed net now (net.text ep.addr) b issub again subc c
      (net.dial w ep.addr (at_least second ep.dialtimeout))

-- From RECONNECT on.
unfoldable pub round :
    {W : Type 0}
    → Net W
    → ℕ
    → List ℕ
    → EndPoint
    → Bool
    → (ℕ → Option ℕ → W → Conn → Written W)
    → Option ℕ
    → W
    → Conn
    → Written W
round net now b ep issub again subc w c =
    reach net now b ep issub again w (pick issub (net.text ep.addr) subc c)

abbrev pub give_up : {W : Type 0} → ℕ → ℕ → Option ℕ → W → Conn → Written W
give_up now cnt subc w c = wrote w (release now subc c) (sub_int (pos cnt) 3) (some write_failed)

-- writeToPeer, on a connection that Close has not ended: the second round is the last.
unfoldable pub write_on : {W : Type 0} → Net W → ℕ → List ℕ → EndPoint → Bool → W → Conn → Written W
write_on {W = W} net now b ep issub w c =
    round net now b ep issub
      (λ (cnt : ℕ) (subc : Option ℕ) (w' : W) (c' : Conn).
        round net now b ep issub (give_up now) subc w' c')
      none w c

-- WriteToPeer from the moment on that the call holds the lock of the main connection; the lock is
-- given back when it returns.
abbrev pub unlock : {W : Type 0} → Written W → Written W
unlock (wrote w c n e) = wrote w (record c { locked = false }) n e
unlock (waits w c) = waits w c

unfoldable pub write_main : {W : Type 0} → Net W → ℕ → List ℕ → EndPoint → W → Conn → Written W
write_main net now b ep w c = unlock (write_on net now b ep false w (record c { locked = true }))

-- After a try by the pool.
abbrev pub pool_tried : {W : Type 0} → Written W → Written W
pool_tried (wrote w c n none) = wrote w c n none
pool_tried (wrote w c n (some e)) = waits w (record c { suberr = true })
pool_tried (waits w c) = waits w c

abbrev pub is_empty : List SubConn → Bool
is_empty [] = true
is_empty (s ∷ rest) = false

-- WriteToPeer up to its return, or up to the wait for the lock; `none` is an endpoint of another
-- transport.
unfoldable pub write_to_peer :
    {W : Type 0} → Net W → ℕ → List ℕ → Option EndPoint → W → Conn → Written W
write_to_peer net now b none w c = wrote w c (pos 0) (some type_mismatch)
write_to_peer net now b (some ep) w c =
    if leb 65536 (length b)
    then wrote w c (pos 0) (some too_large)
    else if not c.locked
    then write_main net now b ep w c
    else if not c.suberr || not (is_empty c.subs)
    then pool_tried (write_on net now b ep true w c)
    else waits w c
