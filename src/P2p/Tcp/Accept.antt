-- ===== src/P2p/Tcp/Accept.antt =====
-- gold/p2p/tcp/tcp.go: receive on a connection that begins with a hello packet.
use wire_gold.Common.{
  if◌then◌else◌, ==_refl, length, All, ℕ, ◌≤◌, ◌≡◌, refl, ap, ◌∙◌, Bool, true, false, not, Option,
  none, some, List, [], ◌∷◌, ◌++◌,
}
use wire_gold.P2p.Pdu.{Pdu, pack, ReadResult, read_from, is_valid_hello, got}
use wire_gold.P2p.Pdu.Framing.{read_from-pack}
use wire_gold.P2p.Tcp.{
  Conn, Net, ConnRecv, SubConn, peer_of, delete_peer, set_peer, forget, drop_peer, delsubs,
  sub_place, with_subs, drop_at, drop_sub,
}
use wire_gold.P2p.Tcp.Write.{hello_packet}
use wire_gold.P2p.Tcp.Receive.{enter, reads_from, end_of, leave, unread, advance, entered, receive}
use wire_gold.P2p.Tcp.Delivery.{IsWhole, frames, queued, receive_loop-frames}
use wire_gold.P2p.Tcp.Framed.{hello-IsWhole}

-- The end of receive leaves the channel and the connection as they are.
module _ {W : Type 0} (net : Net W) where
  leave-recv :
      (issub : Bool) (conn : ℕ) (w : W) (c : Conn)
      → ((leave net issub conn w c).1.recv ≡ c.recv)
        × ((leave net issub conn w c).1.is_open ≡ c.is_open)
  unfolding leave drop_peer drop_sub delsubs
  leave-recv false conn w c = forgot (peer_of (net.text (net.remote conn)) c.peers)
    where
      forgot :
          (o : Option ℕ)
          → (let c' = (forget net (net.text (net.remote conn)) w c o).1 in
              (c'.recv ≡ c.recv) × (c'.is_open ≡ c.is_open))
      forgot none = (refl, refl)
      forgot (some x) = (refl, refl)
  leave-recv true conn w c = at (sub_place conn 0 c.subs)
    where
      shut :
          (o : Option (W × List SubConn))
          → (let c' = (with_subs w c o).1 in (c'.recv ≡ c.recv) × (c'.is_open ≡ c.is_open))
      shut none = (refl, refl)
      shut (some (w', subs)) = (refl, refl)

      at :
          (o : Option ℕ)
          → (let c' = (drop_at net w c o).1 in (c'.recv ≡ c.recv) × (c'.is_open ≡ c.is_open))
      at none = (refl, refl)
      at (some i) = shut (delsubs net i w c.subs)

  -- The connection once its hello packet is read.
  abbrev pub greeted_by : Bool → ℕ → ℕ → Conn → Conn
  greeted_by true now conn c = record c {
    subs = c.subs ++ ((record { busy = false; last = now; conn = conn }) ∷ []);
  }
  greeted_by false now conn c = record c {
    peers = set_peer (net.text (net.remote conn)) conn c.peers;
  }

  enter-hello :
      (issub : Bool) (now conn : ℕ) (rest : List ℕ) (c : Conn)
      → c.is_open ≡ true
      → enter net now conn false (is_valid_hello (got (hello_packet issub) rest)) c
        ≡ (some issub, greeted_by issub now conn c)
  unfolding enter is_valid_hello
  enter-hello true now conn rest c open' = refl
  enter-hello false now conn rest c open' =
      let entry : Bool → Option Bool × Conn =
        λ (t : Bool). if not t then (none, c) else (some false, greeted_by false now conn c) in
      ap entry open'

  greeted-reads :
      (issub : Bool) (now conn : ℕ) (c : Conn)
      → reads_from issub (net.text (net.remote conn)) conn (greeted_by issub now conn c) ≡ some conn
  greeted-reads true now conn c = refl
  greeted-reads false now conn c =
      ap
        (λ (t : Bool).
          if t
          then some conn
          else peer_of (net.text (net.remote conn))
              (delete_peer (net.text (net.remote conn)) c.peers))
        (==_refl (net.text (net.remote conn)))

  receive-entered :
      (issub : Bool) (now fuel conn : ℕ) (ps : List Pdu) (streams : ℕ → List ℕ) (w : W) (c : Conn)
      → c.is_open ≡ true
      → streams conn ≡ pack (hello_packet issub) ++ frames ps
      → receive net fuel now conn false streams w c
        ≡ entered net fuel conn
            (advance conn (frames ps) streams)
            w
            (some issub, greeted_by issub now conn c)
  unfolding receive
  receive-entered issub now fuel conn ps streams w c open' here =
      let begun = λ (o : Bool) (r : ReadResult).
        if not o
        then (w, c)
        else entered net fuel conn (advance conn (unread r) streams) w
            (enter net now conn false (is_valid_hello r) c) in
      let hello = hello_packet issub in
      let whole = hello-IsWhole issub in
      ap (λ (bytes : List ℕ). begun c.is_open (read_from bytes).1) here
      ∙ ap (λ (r : ℕ × ReadResult). begun c.is_open r.1)
          (read_from-pack hello (frames ps) whole.sized whole.fits)
      ∙ ap (λ (o : Bool). begun o (got hello (frames ps))) open'
      ∙ ap (entered net fuel conn (advance conn (frames ps) streams) w)
          (enter-hello issub now conn (frames ps) c open')

  greeted_by-open :
      (issub : Bool) (now conn : ℕ) (c : Conn)
      → c.is_open ≡ true
      → (greeted_by issub now conn c).is_open ≡ true
  greeted_by-open true now conn c h = h
  greeted_by-open false now conn c h = h

  greeted_by-recv :
      (issub : Bool) (now conn : ℕ) (c : Conn) → (greeted_by issub now conn c).recv ≡ c.recv
  greeted_by-recv true now conn c = refl
  greeted_by-recv false now conn c = refl

  -- A connection that begins with a hello packet of either kind brings the packets behind it.
  pub receive-frames :
      (issub : Bool) (now fuel conn : ℕ) (ps : List Pdu) (streams : ℕ → List ℕ) (w : W) (c : Conn)
      → c.is_open ≡ true
      → c.recv ≡ []
      → length ps ≤ fuel
      → All IsWhole ps
      → streams conn ≡ pack (hello_packet issub) ++ frames ps
      → (let c' = (receive net fuel now conn false streams w c).1 in
          (c'.is_open ≡ true)
          × (c'.recv ≡ queued (end_of net (greeted_by issub now conn c) conn) conn ps))
  unfolding end_of
  receive-frames issub now fuel conn ps streams w c open' nothing turns wholes here =
      let c1 = greeted_by issub now conn c in
      let ep = end_of net c1 conn in
      let later = advance conn (frames ps) streams in
      let loop =
        receive_loop-frames fuel ps ep (net.text (net.remote conn)) issub conn later c1 turns wholes
          (greeted_by-open issub now conn c open') (greeted-reads issub now conn c)
          (ap (λ (t : Bool). if t then frames ps else streams conn) (==_refl conn)) in
      let reached =
        receive-entered issub now fuel conn ps streams w c open' here
        ∙ ap (leave net issub conn w) loop in
      let c2 = record c1 { recv = c1.recv ++ queued ep conn ps } in
      let end = leave-recv issub conn w c2 in
      (
        ap (λ (r : W × Conn). r.1.is_open) reached ∙ end.1 ∙ greeted_by-open issub now conn c open',
        ap (λ (r : W × Conn). r.1.recv) reached
            ∙ end.0
            ∙ ap (λ (q : List ConnRecv). q ++ queued ep conn ps)
                (greeted_by-recv issub now conn c ∙ nothing),
      )
