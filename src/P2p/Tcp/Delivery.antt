-- ===== src/P2p/Tcp/Delivery.antt =====
-- gold/p2p/tcp/tcp.go: what one end writes on a connection, the other end's ReadFromPeer returns.
use wire_gold.Common.{
  ◌==◌, if◌then◌else◌, lt→leb, ==_refl, Bool-cases, length, All, take-all, ℕ, zero, suc, ◌^◌, ◌≤◌,
  ◌<◌, ◌≡◌, refl, sym, ap, ◌∙◌, inl, inr, Bool, true, false, some, List, [], ◌∷◌, ◌++◌,
  append_assoc, append-nil, arith,
}
use wire_gold.P2p.Pdu.{Pdu, ReadResult, got, failed, eof, pack, read_from, packet_type_normal}
use wire_gold.P2p.Pdu.Framing.{read_from-pack}
use wire_gold.P2p.Tcp.{EndPoint, Conn, ConnRecv, Net, set_peer}
use wire_gold.P2p.Tcp.Receive.{
  take_packet, receive_loop, read_turn, next_turn, reads_from, advance, unread, Read, read_recv,
  read_from_peer, read, closed, waiting,
}

-- Its length is that of its data and fits, and its type is one of the three.
pub record IsWhole (p : Pdu) : Type 0 where
  pub sized : p.len ≡ length p.dat
  pub fits : p.len < 2 ^ 16
  pub known : p.typ < 3

abbrev pub frames : List Pdu → List ℕ
frames [] = []
frames (p ∷ ps) = pack p ++ frames ps

-- Packets as they stand in the channel.
abbrev pub queued : EndPoint → ℕ → List Pdu → List ConnRecv
queued ep conn [] = []
queued ep conn (p ∷ ps) = (record { addr = ep; conn = conn; pckt = p }) ∷ queued ep conn ps

take_packet-whole :
    (ep : EndPoint) (conn : ℕ) (p : Pdu) (rest : List ℕ) (c : Conn)
    → p.typ < 3
    → c.is_open ≡ true
    → take_packet ep conn (got p rest) c
      ≡ (true, record c { recv = c.recv ++ queued ep conn (p ∷ []) })
unfolding take_packet
take_packet-whole ep conn p rest c known open' = rw (open', lt→leb 3 p.typ known) refl

read_from-nothing : (read_from []).1 ≡ failed eof
unfolding read_from
read_from-nothing = refl

advance-here :
    (conn : ℕ) (rest : List ℕ) (streams : ℕ → List ℕ) → advance conn rest streams conn ≡ rest
advance-here conn rest streams = rw (==_refl conn) refl

-- A turn on a packet that is whole puts it into the channel.
read_turn-whole :
    (ep : EndPoint) (go : (ℕ → List ℕ) → Conn → Conn) (conn : ℕ) (p : Pdu) (rest : List ℕ)
    (streams : ℕ → List ℕ) (c : Conn)
    → IsWhole p
    → c.is_open ≡ true
    → streams conn ≡ pack p ++ rest
    → read_turn ep go streams c (some conn)
      ≡ go (advance conn rest streams) (record c { recv = c.recv ++ queued ep conn (p ∷ []) })
read_turn-whole ep go conn p rest streams c whole open' here =
    ap
      (λ (bytes : List ℕ).
        next_turn go (advance conn (unread (read_from bytes).1) streams)
          (take_packet ep conn (read_from bytes).1 c))
      here
    ∙ ap
        (λ (r : ℕ × ReadResult).
          next_turn go (advance conn (unread r.1) streams) (take_packet ep conn r.1 c))
        (read_from-pack p rest whole.sized whole.fits)
    ∙ ap (next_turn go (advance conn rest streams))
        (take_packet-whole ep conn p rest c whole.known open')

read_turn-end :
    (ep : EndPoint) (go : (ℕ → List ℕ) → Conn → Conn) (conn : ℕ) (streams : ℕ → List ℕ) (c : Conn)
    → streams conn ≡ []
    → read_turn ep go streams c (some conn) ≡ c
unfolding read_from take_packet
read_turn-end ep go conn streams c here =
    ap
      (λ (bytes : List ℕ).
        next_turn go (advance conn (unread (read_from bytes).1) streams)
          (take_packet ep conn (read_from bytes).1 c))
      here

receive_loop-open :
    (n : ℕ) (ep : EndPoint) (key : ℕ) (issub : Bool) (conn : ℕ) (streams : ℕ → List ℕ) (c : Conn)
    → c.is_open ≡ true
    → reads_from issub key conn c ≡ some conn
    → receive_loop (suc n) ep key issub conn streams c
      ≡ read_turn ep (receive_loop n ep key issub conn) streams c (some conn)
unfolding receive_loop
receive_loop-open n ep key issub conn streams c open' own =
    ap
      (λ (b : Bool).
        if b
        then read_turn ep (receive_loop n ep key issub conn) streams c (reads_from issub key conn c)
        else c)
      open'
    ∙ ap (read_turn ep (receive_loop n ep key issub conn) streams c) own

-- reads_from looks at the peers only.
reads_from-recv :
    (issub : Bool) (key conn : ℕ) (c : Conn) (queue : List ConnRecv)
    → reads_from issub key conn (record c { recv = queue }) ≡ reads_from issub key conn c
reads_from-recv true key conn c queue = refl
reads_from-recv false key conn c queue = refl

-- The loop over whole packets, with turns enough, puts them all into the channel, in order.
pub receive_loop-frames :
    (n : ℕ) (ps : List Pdu) (ep : EndPoint) (key : ℕ) (issub : Bool) (conn : ℕ)
    (streams : ℕ → List ℕ) (c : Conn)
    → length ps ≤ n
    → All IsWhole ps
    → c.is_open ≡ true
    → reads_from issub key conn c ≡ some conn
    → streams conn ≡ frames ps
    → receive_loop n ep key issub conn streams c ≡ record c { recv = c.recv ++ queued ep conn ps }
unfolding receive_loop
receive_loop-frames zero [] ep key issub conn streams c h wholes open' own here =
    ap (λ (q : List ConnRecv). record c { recv = q }) (sym (append-nil c.recv))
receive_loop-frames zero (p ∷ ps) ep key issub conn streams c h wholes open' own here =
    absurd (omega arith)
receive_loop-frames (suc n) [] ep key issub conn streams c h wholes open' own here =
    receive_loop-open n ep key issub conn streams c open' own
    ∙ read_turn-end ep (receive_loop n ep key issub conn) conn streams c here
    ∙ ap (λ (q : List ConnRecv). record c { recv = q }) (sym (append-nil c.recv))
receive_loop-frames (suc n) (p ∷ ps) ep key issub conn streams c h wholes open' own here =
    let next = record c { recv = c.recv ++ queued ep conn (p ∷ []) } in
    receive_loop-open n ep key issub conn streams c open' own
    ∙ read_turn-whole ep (receive_loop n ep key issub conn) conn p (frames ps) streams c wholes.0
        open' here
    ∙ receive_loop-frames n ps ep key issub conn (advance conn (frames ps) streams) next
        (omega arith) wholes.1 open' (reads_from-recv issub key conn c next.recv ∙ own)
        (advance-here conn (frames ps) streams)
    ∙ ap (λ (q : List ConnRecv). record c { recv = q })
        (append_assoc c.recv (queued ep conn (p ∷ [])) (queued ep conn ps))

-- The data of the normal packets.
abbrev pub bodies : List Pdu → List (List ℕ)
bodies [] = []
bodies (p ∷ ps) = if p.typ == packet_type_normal then p.dat ∷ bodies ps else bodies ps

-- What ReadFromPeer gives, call after call, until it waits: a number of calls at most.
abbrev pub gather : (Conn → List (List ℕ)) → Read × Conn → List (List ℕ)
gather more (read bytes ep, c) = bytes ∷ more c
gather more (closed, c) = []
gather more (waiting, c) = []

abbrev pub reads : {W : Type 0} → Net W → ℕ → ℕ → Conn → List (List ℕ)
reads net size zero c = []
reads net size (suc n) c = gather (reads net size n) (read_from_peer net size c)

module _ {W : Type 0} (net : Net W) (size : ℕ) (ep : EndPoint) (conn : ℕ) where
  -- The connection once a packet is taken from the channel.
  abbrev taken : List Pdu → Conn → Conn
  taken ps c = record c {
    recv = queued ep conn ps;
    peers = set_peer (net.text ep.addr) conn c.peers;
  }

  read_recv-normal :
      (p : Pdu) (ps : List Pdu) (c : Conn)
      → c.is_open ≡ true
      → (p.typ == packet_type_normal) ≡ true
      → length p.dat ≤ size
      → read_recv net size (queued ep conn (p ∷ ps)) c ≡ (read p.dat ep, taken ps c)
  read_recv-normal p ps c open' normal short = rw (open', normal, take-all size p.dat short) refl

  read_recv-skip :
      (p : Pdu) (ps : List Pdu) (c : Conn)
      → c.is_open ≡ true
      → (p.typ == packet_type_normal) ≡ false
      → read_recv net size (queued ep conn (p ∷ ps)) c
        ≡ read_recv net size (queued ep conn ps) (taken ps c)
  read_recv-skip p ps c open' other = rw (open', other) refl

  read_open :
      (c : Conn) → c.is_open ≡ true → read_from_peer net size c ≡ read_recv net size c.recv c
  unfolding read_from_peer
  read_open c open' = rw open' refl

  gather-queued :
      (ps : List Pdu) (n : ℕ) (c : Conn)
      → length ps ≤ n
      → c.is_open ≡ true
      → All (λ (p : Pdu). length p.dat ≤ size) ps
      → gather (reads net size n) (read_recv net size (queued ep conn ps) c) ≡ bodies ps
  gather-queued [] n c h open' short = rw open' refl
  gather-queued (p ∷ ps) zero c h open' short = absurd (omega arith)
  gather-queued (p ∷ ps) (suc n) c h open' short = elim (Bool-cases (p.typ == packet_type_normal)) [
    | inl normal ↦
        ap (gather (reads net size (suc n))) (read_recv-normal p ps c open' normal short.0)
        ∙ ap (λ (l : List (List ℕ)). p.dat ∷ l)
            (ap (gather (reads net size n)) (read_open (taken ps c) open')
              ∙ gather-queued ps n (taken ps c) (omega arith) open' short.1)
        ∙ ap (λ (b : Bool). if b then p.dat ∷ bodies ps else bodies ps) (sym normal)
    | inr other ↦
        ap (gather (reads net size (suc n))) (read_recv-skip p ps c open' other)
        ∙ gather-queued ps (suc n) (taken ps c) (omega arith) open' short.1
        ∙ ap (λ (b : Bool). if b then p.dat ∷ bodies ps else bodies ps) (sym other)
  ]

  pub reads-queued :
      (ps : List Pdu) (n : ℕ) (c : Conn)
      → length ps ≤ n
      → c.is_open ≡ true
      → All (λ (p : Pdu). length p.dat ≤ size) ps
      → c.recv ≡ queued ep conn ps
      → reads net size (suc n) c ≡ bodies ps
  reads-queued ps n c h open' short e =
      ap (gather (reads net size n)) (read_open c open')
      ∙ ap (λ (q : List ConnRecv). gather (reads net size n) (read_recv net size q c)) e
      ∙ gather-queued ps n c h open' short
