-- ===== src/P2p/Icmp/Hear.antt =====
-- gold/p2p/icmp/icmp.go: what ReadFromPeer notes of the requests that it takes.
use wire_gold.Common.{
  if◌then◌else◌, Bool-cases, All, ℕ, ◌≡◌, refl, sym, ap, ◌∙◌, ◌⊎◌, inl, inr, Bool, true, false,
  List, [], ◌∷◌,
}
use mathlib.Core.Path.{subst}
use wire_gold.P2p.SeqFifo.{put}
use wire_gold.P2p.SeqFifo.Queue.{put_all, put-q, put_all-q}
use wire_gold.P2p.Icmp.{
  Addr, PeerState, same_addr, state_of, store, get_or_create_peer_state, Message, is_request,
  is_taken, Incoming, Read, note_request, take_body, read_from_peer, message_type, v4, v6, echo,
  incoming,
}
use wire_gold.P2p.Icmp.Peers.{state_of-store, state_of-store_other, same_addr-eq}

-- An echo request: where it is from, and its identifier, sequence number and data.
pub record Request : Type 0 where
  pub from : Addr
  pub id : ℕ
  pub seq : ℕ
  pub content : List ℕ

abbrev pub request : Request → Incoming
request r =
    incoming r.from
      (record { typ = message_type r.from true; code = 1; body = echo r.id r.seq r.content })

-- The states after ReadFromPeer has taken each of the requests.
abbrev pub hear : ℕ → Request → List (Addr × PeerState) → List (Addr × PeerState)
hear size r peers = (read_from_peer size (request r ∷ []) peers).0.1

abbrev pub hear_all : ℕ → List Request → List (Addr × PeerState) → List (Addr × PeerState)
hear_all size [] peers = peers
hear_all size (r ∷ rs) peers = hear_all size rs (hear size r peers)

-- The sequence numbers of the requests of a peer, in order.
abbrev pub own_seqs : Addr → List Request → List ℕ
own_seqs addr [] = []
own_seqs addr (r ∷ rs) =
    let later = own_seqs addr rs in if same_addr addr r.from then r.seq ∷ later else later

request-taken :
    (r : Request)
    → is_taken r.from
        (record { typ = message_type r.from true; code = 1; body = echo r.id r.seq r.content })
      ≡ true
unfolding is_taken
request-taken r = by_addr r.from
  where
    by_addr :
        (a : Addr)
        → is_taken a
            (record { typ = message_type a true; code = 1; body = echo r.id r.seq r.content })
          ≡ true
    by_addr (v4 a) = refl
    by_addr (v6 a zone) = refl

request-is_request : (a : Addr) → is_request (message_type a true) ≡ true
request-is_request (v4 a) = refl
request-is_request (v6 a zone) = refl

-- A request is noted in the state of its peer.
hear-store :
    (size : ℕ) (r : Request) (peers : List (Addr × PeerState))
    → hear size r peers
      ≡ store r.from
          (note_request r.id r.seq (state_of r.from peers))
          (store r.from (state_of r.from peers) peers)
unfolding read_from_peer get_or_create_peer_state
hear-store size r peers =
    let msg : Message = record {
      typ = message_type r.from true;
      code = 1;
      body = echo r.id r.seq r.content;
    } in
    let result : Bool → Read × List (Addr × PeerState) =
      λ (q : Bool). take_body size r.from q msg.body peers in
    let rest = (read_from_peer size [] peers) in
    ap (λ (t : Bool). (if t then (result (is_request msg.typ), []) else rest).0.1) (request-taken r)
    ∙ ap (λ (t : Bool). (result t).1) (request-is_request r.from)

hear-own :
    (size : ℕ) (r : Request) (peers : List (Addr × PeerState))
    → state_of r.from (hear size r peers) ≡ note_request r.id r.seq (state_of r.from peers)
hear-own size r peers = ap (state_of r.from) (hear-store size r peers) ∙ state_of-store r.from _ _

hear-other :
    (size : ℕ) (r : Request) (addr : Addr) (peers : List (Addr × PeerState))
    → same_addr addr r.from ≡ false
    → state_of addr (hear size r peers) ≡ state_of addr peers
hear-other size r addr peers apart =
    ap (state_of addr) (hear-store size r peers)
    ∙ state_of-store_other r.from addr _ _ apart
    ∙ state_of-store_other r.from addr _ _ apart

-- The requests of a peer bear one identifier.
abbrev pub OwnId : Addr → ℕ → Request → Type 0
OwnId addr id r = same_addr addr r.from ≡ true → r.id ≡ id

module _ (size : ℕ) (addr : Addr) where
  -- The queue of a peer holds the numbers of its own requests, as if no other had sent any.
  pub hear_all-queue :
      (rs : List Request) (peers : List (Addr × PeerState))
      → (state_of addr (hear_all size rs peers)).fifo.q
        ≡ (put_all (state_of addr peers).fifo (own_seqs addr rs)).q
  unfolding note_request
  hear_all-queue [] peers = refl
  hear_all-queue (r ∷ rs) peers = elim (Bool-cases (same_addr addr r.from)) [
    | inl own ↦
        let here : addr ≡ r.from = same_addr-eq addr r.from own in
        let old = (state_of addr peers).fifo in
        let noted : state_of addr (hear size r peers)
            ≡ note_request r.id r.seq (state_of addr peers) =
          subst
            (λ (a : Addr).
              state_of a (hear size r peers) ≡ note_request r.id r.seq (state_of a peers))
            (sym here) (hear-own size r peers) in
        hear_all-queue rs (hear size r peers)
        ∙ put_all-q (own_seqs addr rs) (state_of addr (hear size r peers)).fifo (put old r.seq) (
            ap (λ (ps : PeerState). ps.fifo.q) noted
            ∙ put-q (record old { next = r.seq }) old r.seq refl)
        ∙ ap
            (λ (t : Bool).
              (put_all old (if t then r.seq ∷ own_seqs addr rs else own_seqs addr rs)).q)
            (sym own)
    | inr other ↦
        hear_all-queue rs (hear size r peers)
        ∙ ap (λ (ps : PeerState). (put_all ps.fifo (own_seqs addr rs)).q)
            (hear-other size r addr peers other)
        ∙ ap
            (λ (t : Bool).
              (put_all (state_of addr peers).fifo
                (if t then r.seq ∷ own_seqs addr rs else own_seqs addr rs)).q)
            (sym other)
  ]

  hear-id :
      (id : ℕ) (r : Request) (peers : List (Addr × PeerState))
      → OwnId addr id r
      → same_addr addr r.from ≡ true
      → (state_of addr (hear size r peers)).id ≡ id
  unfolding note_request
  hear-id id r peers named own =
      ap (λ (a : Addr). (state_of a (hear size r peers)).id) (same_addr-eq addr r.from own)
      ∙ ap (λ (ps : PeerState). ps.id) (hear-own size r peers)
      ∙ named own

  keeps-id :
      (id : ℕ) (rs : List Request) (peers : List (Addr × PeerState))
      → All (OwnId addr id) rs
      → (state_of addr peers).id ≡ id
      → (state_of addr (hear_all size rs peers)).id ≡ id
  keeps-id id [] peers named e = e
  keeps-id id (r ∷ rs) peers named e =
      keeps-id id rs (hear size r peers) named.1 (elim (Bool-cases (same_addr addr r.from)) [
        | inl own ↦ hear-id id r peers named.0 own
        | inr other ↦ ap (λ (ps : PeerState). ps.id) (hear-other size r addr peers other) ∙ e
      ])

  pub hear_all-id :
      (id : ℕ) (rs : List Request) (peers : List (Addr × PeerState))
      → All (OwnId addr id) rs
      → (own_seqs addr rs ≡ []) ⊎ ((state_of addr (hear_all size rs peers)).id ≡ id)
  hear_all-id id [] peers named = inl refl
  hear_all-id id (r ∷ rs) peers named = elim (Bool-cases (same_addr addr r.from)) [
    | inl own ↦ inr (keeps-id id rs (hear size r peers) named.1 (hear-id id r peers named.0 own))
    | inr other ↦
        let skips =
          ap (λ (t : Bool). if t then r.seq ∷ own_seqs addr rs else own_seqs addr rs) other in
        elim (hear_all-id id rs (hear size r peers) named.1) [
          | inl none_own ↦ inl (skips ∙ none_own)
          | inr e ↦ inr e
        ]
  ]
