-- ===== src/P2p/Icmp.antt =====
-- gold/p2p/icmp/icmp.go: the connection of the ICMP transport. Each peer has a state under its
-- address. What the sockets and the parser of the net libraries give is the input.
pub mod Peers
pub mod Hear
pub mod Answer
use wire_gold.Common.{
  ltb, leb, ◌==◌, if◌then◌else◌, ltb→lt, lt→ltb, leb→le, le→ltb, lt→leb, le→leb, ==_iff, ==_refl,
  Bool-cases, Option-cases, all_below, all_below_sound, length, get_elem?, get_or, set, take, drop,
  replicate, Some, All, length-append, length-take, length-drop, length-replicate, take-append-drop,
  take-append, drop-append, take-all, drop-all, drop-nil, drop-drop, take-add, All-append, All-take,
  All-drop, get_or-append_last, take_front, All-weaken, bit_or_step, bit_and-zero, bit_or-zero,
  bit_and_mask, bit_or_fields, bit_xor_cancel, bit_xor_comm, bit_or_assoc, bit_xor-lt, IsByte,
  AreBytes, put_uint, get_uint, length-put_uint, put_uint-AreBytes, get_uint-put_uint, get_uint-lt,
  put_uint-get_uint, get_uint-append, get_uint-take, get_or_ext, ℕ, zero, suc, ◌+◌, ◌-◌, ◌*◌, ◌/◌,
  ◌%◌, ◌^◌, ◌≤◌, ◌<◌, min, bit_and, bit_or, bit_xor, ◌≡◌, refl, sym, ap, ap₂, ◌∙◌, ◌≢◌, ◌↔◌, ◌⊎◌,
  inl, inr, Bool, true, false, not, ◌&&◌, ◌||◌, Option, none, some, List, [], ◌∷◌, ◌++◌,
  append_assoc, append-nil, arith, pow-suc, dec_lt, ℕ_discrete,
}
use wire_gold.P2p.SeqFifo.{SeqFifo, get, put, capacity, taken}

-- netip.Addr: the value of the address, and for IPv6 its zone, a text that is only compared.
pub data Addr : Type 0 where
  v4 : ℕ → Addr
  v6 : ℕ → ℕ → Addr

abbrev pub is6 : Addr → Bool
is6 (v4 a) = false
is6 (v6 a zone) = true

-- peerState: `fifo.next` is seq, to which the queue points.
pub record PeerState : Type 0 where
  pub id : ℕ
  pub fifo : SeqFifo

unfoldable pub new_peer_state : PeerState
new_peer_state = record { id = 0; fifo = record { q = []; next = 0 } }

-- Compare, as a test.
abbrev pub same_addr : Addr → Addr → Bool
same_addr (v4 a) (v4 b) = a == b
same_addr (v6 a zone) (v6 b zone2) = a == b && zone == zone2
same_addr (v4 a) (v6 b zone) = false
same_addr (v6 a zone) (v4 b) = false

-- Equal, where nil is none.
unfoldable pub equal : Option Addr → Option Addr → Bool
equal none none = true
equal none (some b) = false
equal (some a) none = false
equal (some a) (some b) = same_addr a b

abbrev pub state_of : Addr → List (Addr × PeerState) → PeerState
state_of addr [] = new_peer_state
state_of addr ((a, ps) ∷ rest) = if same_addr addr a then ps else state_of addr rest

abbrev pub store : Addr → PeerState → List (Addr × PeerState) → List (Addr × PeerState)
store addr ps [] = (addr, ps) ∷ []
store addr ps ((a, old) ∷ rest) =
    let others = store addr ps rest in
    if same_addr addr a then (a, ps) ∷ rest else (a, old) ∷ others

-- The state is created where there is none.
unfoldable pub get_or_create_peer_state :
    Addr → List (Addr × PeerState) → PeerState × List (Addr × PeerState)
get_or_create_peer_state addr peers = let ps = state_of addr peers in (ps, store addr ps peers)

-- The types of the messages.
pub data MsgType : Type 0 where
  echo4 echo_reply4 echo6 echo_reply6 other_type : MsgType

-- icmp.Message with its body, an Echo or another one.
pub data Body : Type 0 where
  echo : ℕ → ℕ → List ℕ → Body
  other_body : Body

pub record Message : Type 0 where
  pub typ : MsgType
  pub code : ℕ
  pub body : Body

abbrev pub is_echo4 : MsgType → Bool
is_echo4 echo4 = true
is_echo4 echo_reply4 = true
is_echo4 echo6 = false
is_echo4 echo_reply6 = false
is_echo4 other_type = false

abbrev pub is_echo6 : MsgType → Bool
is_echo6 echo4 = false
is_echo6 echo_reply4 = false
is_echo6 echo6 = true
is_echo6 echo_reply6 = true
is_echo6 other_type = false

abbrev pub is_request : MsgType → Bool
is_request echo4 = true
is_request echo_reply4 = false
is_request echo6 = true
is_request echo_reply6 = false
is_request other_type = false

unfoldable pub is_taken : Addr → Message → Bool
is_taken addr msg = (if is6 addr then is_echo6 msg.typ else is_echo4 msg.typ) && msg.code == 1

-- What the socket and the parsers give for one datagram: an error of ReadFrom, ParseAddr,
-- NewEndpoint or ParseMessage, or an address with a message.
pub data Incoming : Type 0 where
  broken : Incoming
  incoming : Addr → Message → Incoming

-- What ReadFromPeer returns; or it waits for a datagram.
pub data Read : Type 0 where
  read : List ℕ → Addr → Read
  failed invalid_body waiting : Read

unfoldable pub note_request : ℕ → ℕ → PeerState → PeerState
note_request id seq ps = record { id = id; fifo = put (record ps.fifo { next = seq }) seq }

abbrev pub take_body :
    ℕ → Addr → Bool → Body → List (Addr × PeerState) → Read × List (Addr × PeerState)
take_body size addr request other_body peers = (invalid_body, peers)
take_body size addr false (echo id seq bytes) peers = (read (take size bytes) addr, peers)
take_body size addr true (echo id seq bytes) peers =
    let (ps, created) = get_or_create_peer_state addr peers in
    (read (take size bytes) addr, store addr (note_request id seq ps) created)

-- ReadFromPeer over the datagrams that come, with what is left of them.
unfoldable pub read_from_peer :
    ℕ → List Incoming → List (Addr × PeerState) → (Read × List (Addr × PeerState)) × List Incoming
read_from_peer size [] peers = ((waiting, peers), [])
read_from_peer size (broken ∷ rest) peers = ((failed, peers), rest)
read_from_peer size (incoming addr msg ∷ rest) peers =
    let later = read_from_peer size rest peers in
    if is_taken addr msg
    then (take_body size addr (is_request msg.typ) msg.body peers, rest)
    else later

abbrev pub message_type : Addr → Bool → MsgType
message_type (v4 a) true = echo4
message_type (v4 a) false = echo_reply4
message_type (v6 a zone) true = echo6
message_type (v6 a zone) false = echo_reply6

-- The message that WriteToPeer sends, for a process with the number `echoid`.
unfoldable pub write_to_peer :
    ℕ → List ℕ → Addr → List (Addr × PeerState) → Message × List (Addr × PeerState)
write_to_peer echoid b addr peers =
    let (ps, created) = get_or_create_peer_state addr peers in
    let (seq, fifo) = get ps.fifo in
    let isrequest = ps.id == 0 in
    let id = if isrequest then echoid else ps.id in
    let msg : Message = record {
      typ = message_type addr isrequest;
      code = 1;
      body = echo id seq b;
    } in
    (msg, store addr (record ps { fifo = fifo }) created)

-- Its count, when the message is marshalled and written without error.
unfoldable pub written_count : List ℕ → Bool → ℕ
written_count b sends = if sends then length b else 0
