-- ===== src/P2p/Tcp/RoundTrip.antt =====
-- gold/p2p/tcp/tcp.go: WriteToPeer at one end, receive and ReadFromPeer at the other.
use wire_gold.Common.{
  lt→leb, length, All, ℕ, suc, ◌+◌, ◌^◌, ◌≤◌, ◌<◌, ◌≡◌, refl, sym, ap, ◌∙◌, Bool, true, false,
  Option, none, some, List, [], ◌∷◌, ◌++◌, append_assoc, append-nil, arith,
}
use wire_gold.Common.Int.{ℤ, pos}
use mathlib.Core.Path.{subst}
use mathlib.Core.List.{map}
use wire_gold.P2p.Pdu.{Pdu, pack}
use wire_gold.P2p.Tcp.{Conn, Net, EndPoint, peer_of}
use wire_gold.P2p.Tcp.Write.{
  write_on, Written, hello_packet, normal_packet, written, transmit, reach, round, give_up, unlock,
  write_main, write_to_peer, wrote, waits,
}
use wire_gold.P2p.Tcp.Receive.{end_of, receive}
use wire_gold.P2p.Tcp.Delivery.{reads, IsWhole, frames, bodies, reads-queued}
use wire_gold.P2p.Tcp.Framed.{IsStream, put_count, normal-IsWhole}
use wire_gold.P2p.Tcp.Accept.{receive-frames, greeted_by}

-- The calls of WriteToPeer for one body after another, as long as none fails or waits.
abbrev pub go_on : {W : Type 0} → (W → Conn → Option (W × Conn)) → Written W → Option (W × Conn)
go_on more (wrote w c n none) = more w c
go_on more (wrote w c n (some e)) = none
go_on more (waits w c) = none

abbrev pub send_each :
    {W : Type 0} → Net W → ℕ → EndPoint → List (List ℕ) → W → Conn → Option (W × Conn)
send_each net now ep [] w c = some (w, c)
send_each net now ep (b ∷ bs) w c =
    go_on (send_each net now ep bs) (write_to_peer net now b (some ep) w c)

normals : List (List ℕ) → List Pdu
normals bs = map normal_packet bs

normals-IsWhole :
    (bs : List (List ℕ)) → All (λ (b : List ℕ). length b < 2 ^ 16) bs → All IsWhole (normals bs)
unfolding normals
normals-IsWhole [] short = tt
normals-IsWhole (b ∷ bs) short = (normal-IsWhole b short.0, normals-IsWhole bs short.1)

bodies-normals : (bs : List (List ℕ)) → bodies (normals bs) ≡ bs
unfolding normals
bodies-normals [] = refl
bodies-normals (b ∷ bs) = ap (λ (l : List (List ℕ)). b ∷ l) (bodies-normals bs)

length-normals : (bs : List (List ℕ)) → length (normals bs) ≡ length bs
unfolding normals
length-normals [] = refl
length-normals (b ∷ bs) = ap suc (length-normals bs)

normals-All :
    (size : ℕ) (bs : List (List ℕ))
    → All (λ (b : List ℕ). length b ≤ size) bs
    → All (λ (p : Pdu). length p.dat ≤ size) (normals bs)
unfolding normals
normals-All size [] h = tt
normals-All size (b ∷ bs) h = (h.0, normals-All size bs h.1)

module _ {W : Type 0} (net : Net W) (sent : W → ℕ → List ℕ) (laws : IsStream net sent) where
  -- A write on the peer's main connection.
  write_to_peer-reuse :
      (now : ℕ) (b : List ℕ) (ep : EndPoint) (w : W) (c : Conn) (conn : ℕ)
      → length b < 2 ^ 16
      → c.locked ≡ false
      → peer_of (net.text ep.addr) c.peers ≡ some conn
      → (net.put w conn (pack (normal_packet b))).2 ≡ true
      → write_to_peer net now b (some ep) w c
        ≡ wrote (net.put w conn (pack (normal_packet b))).0 c (pos (length b + 4)) none
  unfolding write_to_peer write_main write_on round transmit
  write_to_peer-reuse now b ep w c conn short free found ok =
      let key = net.text ep.addr in
      let put = net.put w conn (pack (normal_packet b)) in
      let again = λ (cnt : ℕ) (subc : Option ℕ) (w' : W) (c' : Conn).
        round net now b ep false (give_up now) subc w' c' in
      let taken = record c { locked = true } in
      let small = lt→leb 65536 (length b) (omega arith) in
      let direct : write_to_peer net now b (some ep) w c ≡ write_main net now b ep w c =
        simp (small, free) refl in
      direct
      ∙ ap (λ (o : Option ℕ). unlock (reach net now b ep false again w (o, none, taken))) found
      ∙ ap (λ (t : Bool). unlock (written net now key again none taken (put.0, put.1, t))) ok
      ∙ ap (λ (n : ℤ). wrote put.0 (record c { locked = false }) n none)
          (put_count put.1 b (laws.put_whole w conn (pack (normal_packet b)) ok).1)
      ∙ ap (λ (t : Bool). wrote put.0 (record c { locked = t }) (pos (length b + 4)) none)
          (sym free)

  -- On a connection that takes every write, the bodies follow one another as packets.
  send_each-frames :
      (now : ℕ) (ep : EndPoint) (conn : ℕ) (bs : List (List ℕ)) (w : W) (c : Conn)
      → c.locked ≡ false
      → peer_of (net.text ep.addr) c.peers ≡ some conn
      → ((w1 : W) (bytes : List ℕ) → (net.put w1 conn bytes).2 ≡ true)
      → All (λ (b : List ℕ). length b < 2 ^ 16) bs
      → (w' : W) × (send_each net now ep bs w c ≡ some (w', c))
        × (sent w' conn ≡ sent w conn ++ frames (normals bs))
  unfolding normals
  send_each-frames now ep conn [] w c free found takes short =
      (w, refl, sym (append-nil (sent w conn)))
  send_each-frames now ep conn (b ∷ bs) w c free found takes short =
      let packet = pack (normal_packet b) in
      let w1 = (net.put w conn packet).0 in
      let ok = takes w packet in
      let (w', sends, stream) = send_each-frames now ep conn bs w1 c free found takes short.1 in
      (
        w',
        ap (go_on (send_each net now ep bs))
              (write_to_peer-reuse now b ep w c conn short.0 free found ok)
            ∙ sends,
        stream
            ∙ ap (λ (l : List ℕ). l ++ frames (normals bs)) (laws.put_whole w conn packet ok).0
            ∙ append_assoc (sent w conn) packet (frames (normals bs)),
      )

-- The calls all succeed, and of the state that they leave this holds.
abbrev pub Ends : {W : Type 0} → (W → Conn → Type 0) → Option (W × Conn) → Type 0
Ends P none = ⊥
Ends P (some (w, c)) = P w c

-- At the other end, which has just accepted the connection, receive and then ReadFromPeer give
-- the bodies, once the stream has come: `turns` turns, a buffer of `size` bytes, a call for each
-- body and one more.
abbrev pub Carries :
    {W V : Type 0}
    → (W → ℕ → List ℕ)
    → Net V
    → ℕ
    → ℕ
    → ℕ
    → ℕ
    → ℕ
    → V
    → Conn
    → List (List ℕ)
    → W
    → Conn
    → Type 0
Carries sent far conn far_conn later turns size v d bs w' c' =
    (streams : ℕ → List ℕ)
    → streams far_conn ≡ sent w' conn
    → reads far size (suc (length bs)) (receive far turns later far_conn false streams v d).1 ≡ bs

-- Over TCP, bodies shorter than 2^16 bytes that are given to WriteToPeer one after another, while
-- the lock of the main connection is free, for a peer whose main connection takes every write, are
-- all sent without error; once the stream has reached the other end, which is open with an empty
-- channel and accepts the connection, receive and then one call of ReadFromPeer for each give
-- exactly the bodies, in order, when the buffer has room. Only the hello packet was on the
-- connection, and a write without error gives all its bytes to its connection.
pub reads-send_each :
    {W V : Type 0} (net : Net W) (sent : W → ℕ → List ℕ) (laws : IsStream net sent) (far : Net V)
    (now : ℕ) (ep : EndPoint) (conn : ℕ) (bs : List (List ℕ)) (w : W) (c : Conn)
    (later fuel size far_conn : ℕ) (v : V) (d : Conn)
    → c.locked ≡ false
    → peer_of (net.text ep.addr) c.peers ≡ some conn
    → ((w1 : W) (bytes : List ℕ) → (net.put w1 conn bytes).2 ≡ true)
    → All (λ (b : List ℕ). length b < 2 ^ 16) bs
    → sent w conn ≡ pack (hello_packet false)
    → d.is_open ≡ true
    → d.recv ≡ []
    → length bs ≤ fuel
    → All (λ (b : List ℕ). length b ≤ size) bs
    → Ends (Carries sent far conn far_conn later fuel size v d bs) (send_each net now ep bs w c)
reads-send_each net sent laws far now ep conn bs w c later fuel size far_conn v d free found takes
      short begun open' nothing turns room =
    let (w', sends, stream) =
      send_each-frames net sent laws now ep conn bs w c free found takes short in
    let count = length-normals bs in
    subst (Ends (Carries sent far conn far_conn later fuel size v d bs)) (sym sends)
      (λ (streams : ℕ → List ℕ) (carried : streams far_conn ≡ sent w' conn).
        let got_all =
          receive-frames far false later fuel far_conn (normals bs) streams v d open' nothing
            (omega arith) (normals-IsWhole bs short)
            (carried ∙ stream ∙ ap (λ (l : List ℕ). l ++ frames (normals bs)) begun) in
        reads-queued far size (end_of far (greeted_by far false later far_conn d) far_conn) far_conn
          (normals bs) (length bs) (receive far fuel later far_conn false streams v d).1
          (omega arith) got_all.0 (normals-All size bs room) got_all.1
        ∙ bodies-normals bs)
