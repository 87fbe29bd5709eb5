-- ===== src/P2p/Tcp/Receive.antt =====
-- gold/p2p/tcp/tcp.go: receive, keep and ReadFromPeer.
use wire_gold.Common.{
  ltb, leb, ◌==◌, if◌then◌else◌, take, ℕ, zero, suc, ◌-◌, ◌*◌, Bool, true, false, not, Option, none,
  some, List, [], ◌∷◌, ◌++◌,
}
use wire_gold.P2p.Pdu.{
  ReadResult, eof, unexpected_eof, invalid_magic, got, failed, pack, read_from, is_valid_hello,
  packet_type_keep_alive, packet_type_normal, packet_type_sub_keep_alive,
}
use wire_gold.P2p.Tcp.{
  EndPoint, Net, Conn, ConnRecv, SubConn, second, at_least, peer_of, set_peer, drop_peer, drop_sub,
}

-- newEndpoint on the remote address, with the durations of the connection's own endpoint.
unfoldable pub end_of : {W : Type 0} → Net W → Conn → ℕ → EndPoint
end_of net c conn = record c.self { addr = net.remote conn }

-- How long receive waits for a packet.
unfoldable pub receive_timeout : EndPoint → ℕ
receive_timeout ep = at_least (30 * second) ep.peerstimeout * 2

-- packetTypeTop
abbrev pub packet_type_top : ℕ
packet_type_top = 3

-- The head of receive: whether the connection counts as one of the pool, or none where receive
-- returns. One that was dialed has been validated and never counts as one of the pool; one that was
-- accepted is entered by what isvalid says.
unfoldable pub enter : {W : Type 0} → Net W → ℕ → ℕ → Bool → Bool × Bool → Conn → Option Bool × Conn
enter net now conn true valid c = (if c.is_open then some false else none, c)
enter net now conn false (issub, false) c = (none, c)
enter net now conn false (true, true) c = (
  some true,
  record c { subs = c.subs ++ ((record { busy = false; last = now; conn = conn }) ∷ []) },
)
enter net now conn false (false, true) c =
    if not c.is_open
    then (none, c)
    else (some false, record c { peers = set_peer (net.text (net.remote conn)) conn c.peers })

-- What receive does at its end.
unfoldable pub leave : {W : Type 0} → Net W → Bool → ℕ → W → Conn → W × Conn
leave net true conn w c = drop_sub net conn w c
leave net false conn w c = drop_peer net (net.text (net.remote conn)) w c

-- One packet or error that a turn of the loop reads on a connection; the Boolean tells that the
-- loop goes on. Other errors of the system count as a stream that is cut.
unfoldable pub take_packet : EndPoint → ℕ → ReadResult → Conn → Bool × Conn
take_packet ep conn (failed eof) c = (false, c)
take_packet ep conn (failed invalid_magic) c = (false, c)
take_packet ep conn (failed unexpected_eof) c = (c.is_open, c)
take_packet ep conn (got p rest) c =
    if not c.is_open
    then (false, c)
    else if leb packet_type_top p.typ
    then (false, c)
    else (true, record c { recv = c.recv ++ ((record { addr = ep; conn = conn; pckt = p }) ∷ []) })

-- What is left to read on a connection.
abbrev pub unread : ReadResult → List ℕ
unread (failed e) = []
unread (got p rest) = rest

-- The connection that a turn reads: a connection of the pool stays, that of a peer is looked up.
abbrev pub reads_from : Bool → ℕ → ℕ → Conn → Option ℕ
reads_from true key conn c = some conn
reads_from false key conn c = peer_of key c.peers

abbrev pub advance : ℕ → List ℕ → (ℕ → List ℕ) → ℕ → List ℕ
advance conn rest streams other = if other == conn then rest else streams other

abbrev pub next_turn : ((ℕ → List ℕ) → Conn → Conn) → (ℕ → List ℕ) → Bool × Conn → Conn
next_turn go streams (true, c) = go streams c
next_turn go streams (false, c) = c

abbrev pub read_turn :
    EndPoint → ((ℕ → List ℕ) → Conn → Conn) → (ℕ → List ℕ) → Conn → Option ℕ → Conn
read_turn ep go streams c none = c
read_turn ep go streams c (some conn) =
    let result = (read_from (streams conn)).1 in
    next_turn go (advance conn (unread result) streams) (take_packet ep conn result c)

-- The loop of receive over the bytes that the connections bring, a number of turns at most. Each
-- turn goes on only if the connection of the transport is open.
unfoldable pub receive_loop : ℕ → EndPoint → ℕ → Bool → ℕ → (ℕ → List ℕ) → Conn → Conn
receive_loop zero ep key issub conn streams c = c
receive_loop (suc n) ep key issub conn streams c =
    let turn =
      read_turn ep (receive_loop n ep key issub conn) streams c (reads_from issub key conn c) in
    if c.is_open then turn else c

abbrev pub entered : {W : Type 0} → Net W → ℕ → ℕ → (ℕ → List ℕ) → W → Option Bool × Conn → W × Conn
entered net fuel conn streams w (none, c) = (w, c)
entered net fuel conn streams w (some issub, c) =
    let ep = end_of net c conn in
    leave net issub conn w (receive_loop fuel ep (net.text ep.addr) issub conn streams c)

-- receive on the bytes that the connections bring, with a number of turns. isvalid reads the first
-- packet of a connection that was not validated.
unfoldable pub receive :
    {W : Type 0} → Net W → ℕ → ℕ → ℕ → Bool → (ℕ → List ℕ) → W → Conn → W × Conn
receive net fuel now conn hasvalidated streams w c =
    let first = (read_from (streams conn)).1 in
    let later = if hasvalidated then streams else advance conn (unread first) streams in
    if not c.is_open
    then (w, c)
    else entered net fuel conn later w (enter net now conn hasvalidated (is_valid_hello first) c)

-- What ReadFromPeer returns: the bytes that it copies and the peer, or net.ErrClosed; or it waits.
pub data Read : Type 0 where
  read : List ℕ → EndPoint → Read
  closed waiting : Read

abbrev pub read_recv : {W : Type 0} → Net W → ℕ → List ConnRecv → Conn → Read × Conn
read_recv net size [] c = if c.is_open then (waiting, record c { recv = [] }) else (closed, c)
read_recv net size (r ∷ rest) c =
    let c' = record c { recv = rest; peers = set_peer (net.text r.addr.addr) r.conn c.peers } in
    let skipped = read_recv net size rest c' in
    if not c.is_open
    then (closed, record c { recv = rest })
    else if r.pckt.typ == packet_type_normal
    then (read (take size r.pckt.dat) r.addr, c')
    else skipped

-- ReadFromPeer with a buffer of `size` bytes. Close sets conn.recv to nil, so a call that starts
-- behind it waits for ever; read_recv answers one that has the channel already.
unfoldable pub read_from_peer : {W : Type 0} → Net W → ℕ → Conn → Read × Conn
read_from_peer net size c = if c.is_open then read_recv net size c.recv c else (waiting, c)

-- keep, at one tick: first the peer's main connection, then those of the pool that are not busy.
abbrev pub kept_main : {W : Type 0} → Net W → ℕ → Conn → W × ℕ × Bool → W × Conn
kept_main net key c (w, cnt, true) = (w, c)
kept_main net key c (w, cnt, false) = drop_peer net key w c

abbrev pub keep_main : {W : Type 0} → Net W → ℕ → W → Conn → Option ℕ → W × Conn
keep_main net key w c none = (w, c)
keep_main net key w c (some conn) =
    kept_main net key c
      (net.put w conn (pack (record { typ = packet_type_keep_alive; len = 0; dat = [] })))

-- The loop over the pool: one connection at most is dropped.
abbrev pub kept_sub : {W : Type 0} → Net W → ℕ → Conn → (W → W × Conn) → W × ℕ × Bool → W × Conn
kept_sub net conn c others (w, cnt, true) = others w
kept_sub net conn c others (w, cnt, false) = drop_sub net conn w c

abbrev pub keep_subs : {W : Type 0} → Net W → ℕ → ℕ → List SubConn → W → Conn → W × Conn
keep_subs net interval now [] w c = (w, c)
keep_subs {W = W} net interval now (s ∷ rest) w c =
    let others = λ (w' : W). keep_subs net interval now rest w' c in
    let sent =
      net.put w s.conn (pack (record { typ = packet_type_sub_keep_alive; len = 0; dat = [] })) in
    let idle = kept_sub net s.conn c others sent in
    if ltb (now - s.last) interval then others w else idle

unfoldable pub keep_interval : EndPoint → ℕ
keep_interval ep = at_least (10 * second) ep.keepinterval

unfoldable pub keep : {W : Type 0} → Net W → ℕ → EndPoint → W → Conn → W × Conn
keep net now ep w c =
    let (w', c') = keep_main net (net.text ep.addr) w c (peer_of (net.text ep.addr) c.peers) in
    if not c.is_open then (w, c) else keep_subs net (keep_interval ep) now c'.subs w' c'
