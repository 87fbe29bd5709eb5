-- ===== src/P2p/Tcp.antt =====
-- gold/p2p/tcp/tcp.go: the endpoints and the connections of the TCP transport. The net package and
-- the system are the record `Net` over a state `W` of the network; texts are numbers, since they
-- are only compared, and so are the connections. The caches hold their live entries.
pub mod Write
pub mod Receive
pub mod Delivery
pub mod Framed
pub mod Pool
pub mod Accept
pub mod RoundTrip
use wire_gold.Common.{
  ltb, leb, ◌==◌, if◌then◌else◌, ltb→lt, lt→ltb, leb→le, le→ltb, lt→leb, le→leb, ==_iff, ==_refl,
  Bool-cases, Option-cases, all_below, all_below_sound, length, get_elem?, get_or, set, take, drop,
  replicate, Some, All, length-append, length-take, length-drop, length-replicate, take-append-drop,
  take-append, drop-append, take-all, drop-all, drop-nil, drop-drop, take-add, All-append, All-take,
  All-drop, get_or-append_last, take_front, All-weaken, bit_or_step, bit_and-zero, bit_or-zero,
  bit_and_mask, bit_or_fields, bit_xor_cancel, bit_xor_comm, bit_or_assoc, bit_xor-lt, IsByte,
  AreBytes, put_uint, get_uint, length-put_uint, put_uint-AreBytes, get_uint-put_uint, get_uint-lt,
  put_uint-get_uint, get_uint-append, get_uint-take, get_or_ext, ℕ, zero, suc, ◌+◌, ◌-◌, ◌*◌, ◌/◌,
  ◌%◌, ◌^◌, ◌≤◌, ◌<◌, min, bit_and, bit_or, bit_xor, ◌≡◌, refl, sym, ap, ap₂, ◌∙◌, ◌≢◌, ◌↔◌, ◌⊎◌,
  inl, inr, Bool, true, false, not, ◌&&◌, ◌||◌, Option, none, some, List, [], ◌∷◌, ◌++◌,
  append_assoc, append-nil, arith, pow-suc, dec_lt, ℕ_discrete,
}
use wire_gold.P2p.Pdu.{Pdu}

-- net.TCPAddr
pub record TcpAddr : Type 0 where
  pub ip : List ℕ
  pub port : ℕ
  pub zone : ℕ

-- The durations are nanoseconds.
pub record EndPoint : Type 0 where
  pub addr : TcpAddr
  pub dialtimeout : ℕ
  pub peerstimeout : ℕ
  pub keepinterval : ℕ
  pub recvchansize : ℕ

abbrev pub second : ℕ
second = 1000000000

-- What the transport calls of package net: the text of an address, the end of a connection,
-- net.DialTimeout, io.Copy to a connection with the count and whether there is no error, and
-- CloseWrite.
pub record Net (W : Type 0) : Type 0 where
  pub text : TcpAddr → ℕ
  pub ip_equal : List ℕ → List ℕ → Bool
  pub remote : ℕ → TcpAddr
  pub dial : W → TcpAddr → ℕ → W × Option ℕ
  pub put : W → ℕ → List ℕ → W × ℕ × Bool
  pub close_write : W → ℕ → W

-- connrecv
pub record ConnRecv : Type 0 where
  pub addr : EndPoint
  pub conn : ℕ
  pub pckt : Pdu

-- subconn: `busy` says that its lock is held. A connection stands once in a pool, so it tells its
-- subconn.
pub record SubConn : Type 0 where
  pub busy : Bool
  pub last : ℕ
  pub conn : ℕ

-- Conn: Close sets addr, lstn, peers and recv to nil, which `is_open` says; `locked` is cplk. The
-- channel `recv` holds its packets, oldest first, and `readers` the connections that a thread of
-- receive has been started for.
pub record Conn : Type 0 where
  pub self : EndPoint
  pub is_open : Bool
  pub peers : List (ℕ × ℕ)
  pub recv : List ConnRecv
  pub locked : Bool
  pub subs : List SubConn
  pub suberr : Bool
  pub readers : List ℕ

abbrev pub at_least : ℕ → ℕ → ℕ
at_least low d = if ltb d low then low else d

-- Equal, for two endpoints of this transport that are not nil.
unfoldable pub equal : {W : Type 0} → Net W → EndPoint → EndPoint → Bool
equal net ep ep2 =
    net.ip_equal ep.addr.ip ep2.addr.ip
    && (ep.addr.port == ep2.addr.port && ep.addr.zone == ep2.addr.zone)

-- Listen, once the listener has given its address: the connection, the lifetime of its peers and
-- the size of its channel.
unfoldable pub listen : EndPoint → TcpAddr → Conn × ℕ × ℕ
listen ep bound = (
  record {
    self = record ep { addr = bound };
    is_open = true;
    peers = [];
    recv = [];
    locked = false;
    subs = [];
    suberr = false;
    readers = [];
  },
  at_least (30 * second) ep.peerstimeout,
  at_least 32 ep.recvchansize,
)

-- conn.peers.Get, Set and Delete.
abbrev pub peer_of : ℕ → List (ℕ × ℕ) → Option ℕ
peer_of key [] = none
peer_of key ((k, conn) ∷ rest) = if key == k then some conn else peer_of key rest

abbrev pub delete_peer : ℕ → List (ℕ × ℕ) → List (ℕ × ℕ)
delete_peer key [] = []
delete_peer key ((k, conn) ∷ rest) =
    let others = delete_peer key rest in if key == k then others else (k, conn) ∷ others

abbrev pub set_peer : ℕ → ℕ → List (ℕ × ℕ) → List (ℕ × ℕ)
set_peer key conn peers = (key, conn) ∷ delete_peer key peers

-- Delete with the function that the cache calls on what goes: it shuts the connection.
abbrev pub forget : {W : Type 0} → Net W → ℕ → W → Conn → Option ℕ → W × Conn
forget net key w c none = (w, c)
forget net key w c (some conn) =
    (net.close_write w conn, record c { peers = delete_peer key c.peers })

unfoldable pub drop_peer : {W : Type 0} → Net W → ℕ → W → Conn → W × Conn
drop_peer net key w c = forget net key w c (peer_of key c.peers)

-- The pool without its subs[i], by the cases of the code; none where the index is out of range.
unfoldable pub cut_sub : ℕ → List SubConn → List SubConn
cut_sub i subs =
    if i == 0
    then drop 1 subs
    else if i == length subs - 1
    then take (length subs - 1) subs
    else take i subs ++ drop (i + 1) subs

abbrev pub shut_sub :
    {W : Type 0} → Net W → ℕ → W → List SubConn → Option SubConn → Option (W × List SubConn)
shut_sub net i w subs none = none
shut_sub net i w subs (some sub) = some (net.close_write w sub.conn, cut_sub i subs)

unfoldable pub delsubs : {W : Type 0} → Net W → ℕ → W → List SubConn → Option (W × List SubConn)
delsubs net i w subs = shut_sub net i w subs (get_elem? subs i)

-- The place of a connection in the pool, from number i on.
abbrev pub sub_place : ℕ → ℕ → List SubConn → Option ℕ
sub_place conn i [] = none
sub_place conn i (s ∷ rest) = if s.conn == conn then some i else sub_place conn (i + 1) rest

abbrev pub with_subs : {W : Type 0} → W → Conn → Option (W × List SubConn) → W × Conn
with_subs w c none = (w, c)
with_subs w c (some (w', subs)) = (w', record c { subs = subs })

abbrev pub drop_at : {W : Type 0} → Net W → W → Conn → Option ℕ → W × Conn
drop_at net w c none = (w, c)
drop_at net w c (some i) = with_subs w c (delsubs net i w c.subs)

-- The loops over the pool that drop one connection.
unfoldable pub drop_sub : {W : Type 0} → Net W → ℕ → W → Conn → W × Conn
drop_sub net conn w c = drop_at net w c (sub_place conn 0 c.subs)

-- Close
unfoldable pub close : Conn → Conn
close c = record c { is_open = false; peers = [] }
