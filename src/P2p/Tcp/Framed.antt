-- ===== src/P2p/Tcp/Framed.antt =====
-- gold/p2p/tcp/tcp.go: what the streams of the main connections hold. The net package gives its
-- documented laws.
pub mod Transmit
pub mod Dial
use wire_gold.Common.{
  ltb, leb, ◌==◌, if◌then◌else◌, ltb→lt, lt→ltb, leb→le, le→ltb, lt→leb, le→leb, ==_iff, ==_refl,
  Bool-cases, Option-cases, all_below, all_below_sound, length, get_elem?, get_or, set, take, drop,
  replicate, Some, All, length-append, length-take, length-drop, length-replicate, take-append-drop,
  take-append, drop-append, take-all, drop-all, drop-nil, drop-drop, take-add, All-append, All-take,
  All-drop, get_or-append_last, take_front, All-weaken, bit_or_step, bit_and-zero, bit_or-zero,
  bit_and_mask, bit_or_fields, bit_xor_cancel, bit_xor_comm, bit_or_comm, bit_or_assoc, bit_xor-lt,
  IsByte, AreBytes, put_uint, get_uint, length-put_uint, put_uint-AreBytes, get_uint-put_uint,
  get_uint-lt, put_uint-get_uint, get_uint-append, get_uint-take, get_or_ext, ℕ, zero, suc, ◌+◌,
  ◌-◌, ◌*◌, ◌/◌, ◌%◌, ◌^◌, ◌≤◌, ◌<◌, min, bit_and, bit_or, bit_xor, ◌≡◌, refl, sym, ap, ap₂, ◌∙◌,
  ◌≢◌, ◌↔◌, ◌⊎◌, inl, inr, Bool, true, false, not, ◌&&◌, ◌||◌, Option, none, some, List, [], ◌∷◌,
  ◌++◌, append_assoc, append-nil, arith, pow-suc, dec_lt, ℕ_discrete,
}
use mathlib.Core.Path.{subst}
use wire_gold.Common.Int.{ℤ, pos, sub_int}
use wire_gold.P2p.Pdu.{
  Pdu, pack, magicbuf, packet_type_keep_alive, packet_type_normal, packet_type_sub_keep_alive,
  ReadError, ReadResult, short_read, read_data, read_head, read_from, is_valid_hello, eof,
  unexpected_eof, invalid_magic, got, failed,
}
use wire_gold.P2p.Tcp.{
  Conn, TcpAddr, Net, peer_of, delete_peer, forget, drop_peer, EndPoint, second, at_least, ConnRecv,
  SubConn, equal, listen, set_peer, cut_sub, shut_sub, delsubs, sub_place, with_subs, drop_at,
  drop_sub, close,
}
use wire_gold.P2p.Tcp.Write.{
  Written, hello_packet, normal_packet, written, transmit, wrote, waits, register, greeted, dialed,
  reach, round, give_up, write_on, unlock, write_main, WriteError, keep_busy, lock_free, from_pool,
  pick, release_in, release, drop_failed, pool_tried, is_empty, write_to_peer, type_mismatch,
  too_large, dial_failed, hello_failed, write_failed,
}
use wire_gold.P2p.Tcp.Delivery.{
  IsWhole, frames, queued, receive_loop-frames, bodies, gather, reads, reads-queued,
}

-- What package net documents, over the bytes that were given to each connection: a write without
-- error gives all its bytes to its connection, a dialed connection has none yet, and no write or
-- dialing touches another one.
pub record IsStream {W : Type 0} (net : Net W) (sent : W → ℕ → List ℕ) : Type 0 where
  pub put_whole :
      (w : W) (conn : ℕ) (bytes : List ℕ)
      → (net.put w conn bytes).2 ≡ true
      → (sent (net.put w conn bytes).0 conn ≡ sent w conn ++ bytes)
        × ((net.put w conn bytes).1 ≡ length bytes)
  pub put_other :
      (w : W) (conn : ℕ) (bytes : List ℕ) (other : ℕ)
      → other ≢ conn
      → sent (net.put w conn bytes).0 other ≡ sent w other
  pub dial_new :
      (w : W) (addr : TcpAddr) (timeout conn : ℕ)
      → (net.dial w addr timeout).1 ≡ some conn
      → sent (net.dial w addr timeout).0 conn ≡ []
  pub dial_other :
      (w : W) (addr : TcpAddr) (timeout other : ℕ)
      → (net.dial w addr timeout).1 ≢ some other
      → sent (net.dial w addr timeout).0 other ≡ sent w other
  pub close_keeps : (w : W) (conn other : ℕ) → sent (net.close_write w conn) other ≡ sent w other

-- A connection that is dialed to the address has it as its far end. For a host that is not specified,
-- as 0.0.0.0, package net dials the local system instead.
abbrev pub Reaches : {W : Type 0} → Net W → TcpAddr → Type 0
Reaches {W = W} net addr =
    (w : W) (timeout conn : ℕ) → (net.dial w addr timeout).1 ≡ some conn → net.remote conn ≡ addr

-- Its bytes so far are those of whole packets.
pub record IsFramed (stream : List ℕ) : Type 0 where
  pub packets : List Pdu
  pub wholes : All IsWhole packets
  pub bytes : stream ≡ frames packets

frames-append : (ps : List Pdu) (p : Pdu) → frames (ps ++ (p ∷ [])) ≡ frames ps ++ pack p
frames-append [] p = append-nil (pack p)
frames-append (q ∷ ps) p =
    ap (λ (l : List ℕ). pack q ++ l) (frames-append ps p)
    ∙ sym (append_assoc (pack q) (frames ps) (pack p))

pub append-IsFramed :
    (stream : List ℕ) (p : Pdu) → IsFramed stream → IsWhole p → IsFramed (stream ++ pack p)
append-IsFramed stream p framed whole = record {
  packets = framed.packets ++ (p ∷ []);
  wholes = All-append IsWhole framed.packets (p ∷ []) framed.wholes (whole, tt);
  bytes = ap (λ (l : List ℕ). l ++ pack p) framed.bytes ∙ sym (frames-append framed.packets p);
}

pub normal-IsWhole : (b : List ℕ) → length b < 2 ^ 16 → IsWhole (normal_packet b)
normal-IsWhole b short = record { sized = omega arith; fits = omega arith; known = omega arith }

pub hello-IsWhole : (issub : Bool) → IsWhole (hello_packet issub)
hello-IsWhole true = record { sized = refl; fits = omega arith; known = omega arith }
hello-IsWhole false = record { sized = refl; fits = omega arith; known = omega arith }

pub put_count :
    (cnt : ℕ) (b : List ℕ)
    → cnt ≡ length (pack (normal_packet b))
    → sub_int (pos cnt) 3 ≡ pos (length b + 4)
unfolding sub_int pack put_uint
put_count cnt b e =
    rw (e, le→leb 3 (suc (suc (suc (suc (suc (suc (suc (length b)))))))) (omega arith))
      (ap pos (omega arith))

-- Entries of the peers.
pub delete_peer-All :
    (P Q : ℕ × ℕ → Type 0) (key : ℕ) (peers : List (ℕ × ℕ))
    → ((k x : ℕ) → (key == k) ≡ false → P (k, x) → Q (k, x))
    → All P peers
    → All Q (delete_peer key peers)
delete_peer-All P Q key [] step h = tt
delete_peer-All P Q key ((k, x) ∷ rest) step h = elim (Bool-cases (key == k)) [
  | inl same ↦ rw same (delete_peer-All P Q key rest step h.1)
  | inr other ↦ rw other (step k x other h.0, delete_peer-All P Q key rest step h.1)
]

pub peer_of-All :
    (P : ℕ × ℕ → Type 0) (key conn : ℕ) (peers : List (ℕ × ℕ))
    → peer_of key peers ≡ some conn
    → All P peers
    → P (key, conn)
peer_of-All P key conn [] e h = absurd (cc)
peer_of-All P key conn ((k, x) ∷ rest) e h = elim (Bool-cases (key == k)) [
  | inl same ↦
      let e' = ap (λ (b : Bool). if b then some x else peer_of key rest) (sym same) ∙ e in
      let found : x ≡ conn = cc in
      let here : k ≡ key = sym ((==_iff key k).0 same) in
      subst P (ap₂ (λ (a b : ℕ). (a, b)) here found) h.0
  | inr other ↦
      peer_of-All P key conn rest
        (ap (λ (b : Bool). if b then some x else peer_of key rest) (sym other) ∙ e) h.1
]

pub absent-All :
    (P Q : ℕ × ℕ → Type 0) (key : ℕ) (peers : List (ℕ × ℕ))
    → ((k x : ℕ) → (key == k) ≡ false → P (k, x) → Q (k, x))
    → peer_of key peers ≡ none
    → All P peers
    → All Q peers
absent-All P Q key [] step e h = tt
absent-All P Q key ((k, x) ∷ rest) step e h = elim (Bool-cases (key == k)) [
  | inl same ↦
      let e' = ap (λ (b : Bool). if b then some x else peer_of key rest) (sym same) ∙ e in
      absurd (cc)
  | inr other ↦ (
    step k x other h.0,
    absent-All P Q key rest step
        (ap (λ (b : Bool). if b then some x else peer_of key rest) (sym other) ∙ e) h.1,
  )
]

module _ {W : Type 0} (net : Net W) (sent : W → ℕ → List ℕ) where
  abbrev pub Entry : W → ℕ × ℕ → Type 0
  Entry w (k, conn) = (k ≡ net.text (net.remote conn)) × IsFramed (sent w conn)

  abbrev pub ArePeersFramed : W → Conn → Type 0
  ArePeersFramed w c = All (Entry w) c.peers

  -- The packet is the last on the peer's main connection, and the count is four more than the data.
  abbrev pub IsDelivered : ℕ → List ℕ → W → Conn → ℤ → Type 0
  IsDelivered key b w c n =
      (conn : ℕ) × (before : List ℕ) × (peer_of key c.peers ≡ some conn)
      × (sent w conn ≡ before ++ pack (normal_packet b))
      × (n ≡ pos (length b + 4))

  -- The state that a call leaves, and what it has done when it returns no error.
  abbrev pub IsSound : ℕ → List ℕ → Written W → Type 0
  IsSound key b (wrote w c n none) = ArePeersFramed w c × IsDelivered key b w c n
  IsSound key b (wrote w c n (some e)) = ArePeersFramed w c
  IsSound key b (waits w c) = ArePeersFramed w c

  -- What follows a failed write, with no connection of the pool locked.
  abbrev pub KeepsFramed : ℕ → List ℕ → (ℕ → Option ℕ → W → Conn → Written W) → Type 0
  KeepsFramed key b again =
      (cnt : ℕ) (w : W) (c : Conn) → ArePeersFramed w c → IsSound key b (again cnt none w c)
