-- ===== src/P2p/Icmp/Answer.antt =====
-- gold/p2p/icmp/icmp.go: the replies of WriteToPeer to the requests that ReadFromPeer has taken.
use wire_gold.Common.{
  ◌==◌, if◌then◌else◌, length, take, All, take-all, ℕ, ◌≤◌, ◌≡◌, refl, sym, ap, ap₂, ◌∙◌, ◌≢◌, inl,
  inr, Bool, false, List, [], ◌∷◌, arith,
}
use wire_gold.P2p.SeqFifo.{get}
use wire_gold.P2p.SeqFifo.Queue.{get_all, new_seq_fifo, get_all-take, put_all-held, put_all-q}
use wire_gold.P2p.Icmp.{
  Addr, PeerState, state_of, get_or_create_peer_state, Message, message_type, write_to_peer, echo,
}
use wire_gold.P2p.Icmp.Peers.{state_of-store}
use wire_gold.P2p.Icmp.Hear.{Request, hear_all, own_seqs, OwnId, hear_all-queue, hear_all-id}

-- What WriteToPeer sends to a peer for one body after another.
abbrev pub answers : ℕ → Addr → List (List ℕ) → List (Addr × PeerState) → List Message
answers echoid addr [] peers = []
answers echoid addr (b ∷ bs) peers =
    (write_to_peer echoid b addr peers).0
    ∷ answers echoid addr bs (write_to_peer echoid b addr peers).1

-- Replies under these sequence numbers.
abbrev pub replies : Addr → ℕ → List ℕ → List (List ℕ) → List Message
replies addr id (seq ∷ seqs) (b ∷ bs) =
    (record { typ = message_type addr false; code = 1; body = echo id seq b })
    ∷ replies addr id seqs bs
replies addr id [] bs = []
replies addr id (seq ∷ seqs) [] = []

-- WriteToPeer to a peer that has sent a request takes the next number of its queue.
answers-queue :
    (echoid : ℕ) (addr : Addr) (id : ℕ) (bs : List (List ℕ)) (peers : List (Addr × PeerState))
    → id ≢ 0
    → (state_of addr peers).id ≡ id
    → answers echoid addr bs peers
      ≡ replies addr id (get_all (length bs) (state_of addr peers).fifo) bs
unfolding write_to_peer get_or_create_peer_state
answers-queue echoid addr id [] peers nonzero e = refl
answers-queue echoid addr id (b ∷ bs) peers nonzero e =
    let ps = state_of addr peers in
    let next : state_of addr (write_to_peer echoid b addr peers).1
        ≡ record ps { fifo = (get ps.fifo).1 } =
      state_of-store addr _ _ in
    let known : (ps.id == 0) ≡ false = ground arith in
    let msg : Bool → Message = λ (t : Bool). record {
      typ = message_type addr t;
      code = 1;
      body = echo (if t then echoid else ps.id) (get ps.fifo).0 b;
    } in
    let final : ℕ → Message = λ (n : ℕ). record {
      typ = message_type addr false;
      code = 1;
      body = echo n (get ps.fifo).0 b;
    } in
    ap₂ (λ (m : Message) (l : List Message). m ∷ l) (ap msg known ∙ ap final e)
      (answers-queue echoid addr id bs (write_to_peer echoid b addr peers).1 nonzero
          (ap (λ (s : PeerState). s.id) next ∙ e)
        ∙ ap (λ (s : PeerState). replies addr id (get_all (length bs) s.fifo) bs) next)

-- After echo requests of any peers have been taken by ReadFromPeer in any order, those of one peer
-- with one identifier that is not zero and at most 128, none waiting before, as many bodies that
-- WriteToPeer is given for that peer go out as replies under that identifier, each with the
-- sequence number of the oldest request not yet answered.
pub answers-hear_all :
    (size echoid : ℕ) (addr : Addr) (id : ℕ) (rs : List Request) (bs : List (List ℕ))
    (peers : List (Addr × PeerState))
    → id ≢ 0
    → All (OwnId addr id) rs
    → (state_of addr peers).fifo.q ≡ []
    → length (own_seqs addr rs) ≤ 128
    → length bs ≡ length (own_seqs addr rs)
    → answers echoid addr bs (hear_all size rs peers) ≡ replies addr id (own_seqs addr rs) bs
answers-hear_all size echoid addr id rs bs peers nonzero named empty few count =
    elim (hear_all-id size addr id rs peers named) [
      | inl quiet ↦
          no_answers bs (omega (arith, ap length quiet))
          ∙ ap (λ (l : List ℕ). replies addr id l bs) (sym quiet)
      | inr e ↦
          let heard = (state_of addr (hear_all size rs peers)).fifo in
          let held : heard.q ≡ own_seqs addr rs =
            hear_all-queue size addr rs peers
            ∙ put_all-q (own_seqs addr rs) (state_of addr peers).fifo (new_seq_fifo 0) empty
            ∙ put_all-held (own_seqs addr rs) 0 few in
          answers-queue echoid addr id bs (hear_all size rs peers) nonzero e
          ∙ ap (λ (l : List ℕ). replies addr id l bs)
              (get_all-take (length bs) heard.next heard.q (omega (arith, ap length held))
                ∙ ap (take (length bs)) held
                ∙ take-all (length bs) (own_seqs addr rs) (omega arith))
    ]
  where
    no_answers :
        (bodies : List (List ℕ))
        → length bodies ≡ 0
        → answers echoid addr bodies (hear_all size rs peers) ≡ replies addr id [] bodies
    no_answers [] e = refl
    no_answers (b ∷ rest) e = absurd (omega arith)
