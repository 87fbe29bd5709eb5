-- ===== src/Examples/Tcp.antt =====
-- The TCP transport at concrete inputs. A network is a stream of bytes for each connection, whose
-- number is the port of its far end; an address with a host or a zone cannot be dialed.
use wire_gold.Common.{
  ltb, ◌==◌, if◌then◌else◌, ==_refl, length, put_uint, ℕ, zero, suc, ◌≡◌, refl, sym, ap, ◌≢◌, Bool,
  true, false, Option, none, some, List, [], ◌∷◌, ◌++◌, arith,
}
use wire_gold.P2p.Pdu.{pack}
use wire_gold.P2p.Tcp.{TcpAddr, Net, EndPoint, Conn, peer_of}
use wire_gold.P2p.Tcp.Write.{write_to_peer, hello_packet}
use wire_gold.P2p.Tcp.Framed.{IsStream, Reaches, ArePeersFramed, IsSound}
use wire_gold.P2p.Tcp.Framed.Dial.{write_to_peer-IsSound}
use wire_gold.P2p.Tcp.Pool.{
  pool_write_misroutes, pool_dial-ReadsMain, Succeeds, IsMisrouted, ReadsMain,
}
use wire_gold.P2p.Tcp.Pool.Failure.{pool_failure_drops_main, left}
use wire_gold.P2p.Tcp.RoundTrip.{reads-send_each, send_each, Ends, Carries}

abbrev Streams : Type 0
Streams = ℕ → List ℕ

abbrev extend : Streams → ℕ → List ℕ → Streams
extend w conn bytes x = if x == conn then w x ++ bytes else w x

abbrev clear : Streams → ℕ → Streams
clear w conn x = if x == conn then [] else w x

abbrev port_only : List ℕ → ℕ → ℕ → Option ℕ
port_only [] port zero = some port
port_only [] port (suc z) = none
port_only (b ∷ bs) port z = none

abbrev far_end : ℕ → TcpAddr
far_end conn = record { ip = []; port = conn; zone = 0 }

abbrev dialed_streams : Streams → Option ℕ → Streams
dialed_streams w none = w
dialed_streams w (some conn) = clear w conn

-- A network whose writes succeed by a test on their bytes.
abbrev toy_net : (List ℕ → Bool) → Net Streams
toy_net succeeds = record {
  text = λ (a : TcpAddr). a.port;
  ip_equal = λ (a b : List ℕ). true;
  remote = far_end;
  dial = λ (w : Streams) (a : TcpAddr) (t : ℕ).
      (dialed_streams w (port_only a.ip a.port a.zone), port_only a.ip a.port a.zone);
  put = λ (w : Streams) (conn : ℕ) (bytes : List ℕ).
      (extend w conn bytes, length bytes, succeeds bytes);
  close_write = λ (w : Streams) (conn : ℕ). w;
}

abbrev streams_of : Streams → ℕ → List ℕ
streams_of w = w

extend-here : (w : Streams) (conn : ℕ) (bytes : List ℕ) → extend w conn bytes conn ≡ w conn ++ bytes
extend-here w conn bytes = rw (==_refl conn) refl

apart : (x conn : ℕ) → x ≢ conn → (x == conn) ≡ false
apart x conn differ = ground arith

port_only-far_end :
    (ip : List ℕ) (port zone conn : ℕ)
    → port_only ip port zone ≡ some conn
    → far_end conn ≡ record { ip = ip; port = port; zone = zone }
port_only-far_end [] port zero conn e = let same : port ≡ conn = cc in ap far_end (sym same)
port_only-far_end [] port (suc z) conn e = absurd (cc)
port_only-far_end (b ∷ bs) port z conn e = absurd (cc)

dialed-clear :
    (w : Streams) (o : Option ℕ) (conn : ℕ) → o ≡ some conn → dialed_streams w o conn ≡ []
dialed-clear w none conn e = absurd (cc)
dialed-clear w (some x) conn e = let same : conn ≡ x = cc in rw (same, ==_refl x) refl

dialed-other :
    (w : Streams) (o : Option ℕ) (other : ℕ) → o ≢ some other → dialed_streams w o other ≡ w other
dialed-other w none other e = refl
dialed-other w (some x) other e =
    rw (apart other x (λ (same : other ≡ x). e (ap some (sym same)))) refl

toy_net-IsStream : (succeeds : List ℕ → Bool) → IsStream (toy_net succeeds) streams_of
toy_net-IsStream succeeds = record {
  put_whole = λ (w : Streams) (conn : ℕ) (bytes : List ℕ) (ok : succeeds bytes ≡ true).
      (extend-here w conn bytes, refl);
  put_other = λ (w : Streams) (conn : ℕ) (bytes : List ℕ) (other : ℕ) (differ : other ≢ conn).
      ap (λ (t : Bool). if t then w other ++ bytes else w other) (apart other conn differ);
  dial_new =
      λ (w : Streams) (a : TcpAddr) (t conn : ℕ) (e : port_only a.ip a.port a.zone ≡ some conn).
        dialed-clear w (port_only a.ip a.port a.zone) conn e;
  dial_other =
      λ (w : Streams) (a : TcpAddr) (t other : ℕ) (e : port_only a.ip a.port a.zone ≢ some other).
        dialed-other w (port_only a.ip a.port a.zone) other e;
  close_keeps = λ (w : Streams) (conn other : ℕ). refl;
}

abbrev reliable : Net Streams
reliable = toy_net (λ (bytes : List ℕ). true)

reliable-Reaches : (a : TcpAddr) → Reaches reliable a
reliable-Reaches a w t conn e = port_only-far_end a.ip a.port a.zone conn e

abbrev near : EndPoint
near = record {
  addr = far_end 9;
  dialtimeout = 0;
  peerstimeout = 0;
  keepinterval = 0;
  recvchansize = 0;
}

abbrev target : EndPoint
target = record near { addr = far_end 5 }

abbrev idle : Conn
idle = record {
  self = near;
  is_open = true;
  peers = (5, 5) ∷ [];
  recv = [];
  locked = false;
  subs = [];
  suberr = false;
  readers = [];
}

-- Only the hello packet of the connection to port 5 has gone out.
abbrev greeted_streams : Streams
greeted_streams x = if x == 5 then 71 ∷ 69 ∷ 84 ∷ 32 ∷ 0 ∷ 0 ∷ 0 ∷ [] else []

abbrev two_bodies : List (List ℕ)
two_bodies = (1 ∷ 2 ∷ []) ∷ (3 ∷ []) ∷ []

abbrev server : Conn
server = record idle { self = target; peers = [] }

reads-send_each_example :
    Ends
      (Carries streams_of reliable 5 7 1 2 10 greeted_streams server two_bodies)
      (send_each reliable 0 target two_bodies greeted_streams idle)
unfolding pack put_uint
reads-send_each_example =
    reads-send_each reliable streams_of (toy_net-IsStream (λ (bytes : List ℕ). true)) reliable 0
      target 5 two_bodies greeted_streams idle 1 2 10 7 greeted_streams server refl refl
      (λ (w : Streams) (bytes : List ℕ). refl) (omega arith, (omega arith, tt)) refl refl refl
      (omega arith) (omega arith, (omega arith, tt))

framed_start : ArePeersFramed reliable streams_of greeted_streams idle
unfolding pack put_uint
framed_start = (
  (
    refl,
    record {
      packets = (hello_packet false) ∷ [];
      wholes = (record { sized = refl; fits = omega arith; known = omega arith }, tt);
      bytes = refl;
    },
  ),
  tt,
)

write_to_peer-IsSound_example :
    IsSound reliable streams_of 5
      (1 ∷ 2 ∷ [])
      (write_to_peer reliable 0 (1 ∷ 2 ∷ []) (some target) greeted_streams idle)
write_to_peer-IsSound_example =
    write_to_peer-IsSound reliable streams_of (toy_net-IsStream (λ (bytes : List ℕ). true)) target
      (reliable-Reaches target.addr) 0 (1 ∷ 2 ∷ []) greeted_streams idle refl framed_start

-- The main connection is in use by another call.
abbrev busy : Conn
busy = record idle { locked = true }

-- The pool has a connection to port 6.
abbrev shared_pool : Conn
shared_pool = record busy { subs = (record { busy = false; last = 0; conn = 6 }) ∷ [] }

another_port : far_end 6 ≢ far_end 5
another_port e = let ports = ap (λ (a : TcpAddr). a.port) e in absurd (omega arith)

pool_write_misroutes_example :
    Succeeds
      (IsMisrouted reliable streams_of target (1 ∷ 2 ∷ []) 6 greeted_streams)
      (write_to_peer reliable 0 (1 ∷ 2 ∷ []) (some target) greeted_streams shared_pool)
pool_write_misroutes_example =
    pool_write_misroutes reliable streams_of (toy_net-IsStream (λ (bytes : List ℕ). true)) 0
      (1 ∷ 2 ∷ []) target greeted_streams shared_pool 6
      ((record { busy = true; last = 0; conn = 6 }) ∷ []) (omega arith) refl refl another_port refl

-- The main connection to port 5 has the number 4, for which the system has another far end.
abbrev other_main : Conn
other_main = record busy { peers = (5, 4) ∷ [] }

pool_dial-ReadsMain_example :
    Succeeds
      (ReadsMain reliable other_main (1 ∷ 2 ∷ []) 5 4)
      (write_to_peer reliable 0 (1 ∷ 2 ∷ []) (some target) greeted_streams other_main)
pool_dial-ReadsMain_example =
    pool_dial-ReadsMain reliable streams_of (toy_net-IsStream (λ (bytes : List ℕ). true)) 0
      (1 ∷ 2 ∷ []) target greeted_streams other_main 4 5 (omega arith) refl refl refl refl refl refl
      refl refl refl

-- Only the packets without data go out.
abbrev fragile : Net Streams
fragile = toy_net (λ (bytes : List ℕ). ltb (length bytes) 8)

pool_failure_drops_main_example :
    peer_of 5
      (left (write_to_peer fragile 0 (1 ∷ 2 ∷ []) (some target) greeted_streams other_main)).peers
    ≡ none
unfolding pack put_uint
pool_failure_drops_main_example =
    pool_failure_drops_main fragile 0 (1 ∷ 2 ∷ []) target greeted_streams other_main 4 5
      (omega arith) refl refl refl refl refl refl refl
