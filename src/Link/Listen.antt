-- ===== src/Link/Listen.antt =====
-- gold/link/listen.go: the listener's buffers, its jobs, and what a job does with a datagram.
pub mod Slots
pub mod Jobs
pub mod Lost
pub mod Finished
use wire_gold.Common.{
  ◌==◌, if◌then◌else◌, get_elem?, set, replicate, ℕ, zero, suc, ◌+◌, ◌%◌, ◌^◌, Bool, true, false,
  not, Option, none, some, List, [], ◌∷◌,
}
use wire_gold.Head.Packet.{PacketBuf, has_finished}
use wire_gold.Link.Dispatch.{Me, Verdict, dispatch}
use wire_gold.Link.Recv.{Host, Waited, wait, arrived}

-- job, from the moment that it is handed to a worker or to a thread of its own: the slot whose
-- buffer it reads, or none for a buffer of its own, and the length of its datagram.
pub record Job : Type 0 where
  pub slot : Option ℕ
  pub n : ℕ

-- `fils` says which buffers are taken; `jobs` holds the jobs that have not ended. The last two are
-- recvtotlcnt and recvloopcnt of Me.
pub record Listener : Type 0 where
  pub fils : List Bool
  pub jobs : List Job
  pub listening : Bool
  pub total : ℕ
  pub loops : ℕ

unfoldable pub started : ℕ → Listener
started ncpu = record {
  fils = replicate ncpu false;
  jobs = [];
  listening = true;
  total = 0;
  loops = 0;
}

-- What ReadFromPeer gives to a turn: a closed socket, another error with whether the new listening
-- succeeds, or a count of bytes.
pub data Received : Type 0 where
  quit : Received
  broken : Bool → Received
  got : ℕ → Received

-- The first buffer that is free, which is taken.
abbrev pub behind : Option ℕ × List Bool → Option ℕ × List Bool
behind (none, fils) = (none, true ∷ fils)
behind (some i, fils) = (some (suc i), true ∷ fils)

abbrev pub claim : List Bool → Option ℕ × List Bool
claim [] = (none, [])
claim (false ∷ fils) = (some 0, true ∷ fils)
claim (true ∷ fils) = behind (claim fils)

abbrev pub turn_with : Received → Option ℕ × List Bool → Listener → Listener
turn_with quit (slot, fils) l = record l { fils = fils; listening = false }
turn_with (broken again) (slot, fils) l = record l { fils = fils; listening = again }
turn_with (got n) (slot, fils) l =
    if n == 0
    then record l { fils = fils }
    else record l { fils = fils; jobs = (record { slot = slot; n = n }) ∷ l.jobs }

-- One turn of the listening loop.
unfoldable pub listen_turn : Received → Listener → Listener
listen_turn r l = if l.listening then turn_with r (claim l.fils) l else l

abbrev pub remove {ℓ} : {A : Type ℓ} → ℕ → List A → List A
remove k [] = []
remove zero (x ∷ xs) = xs
remove (suc k) (x ∷ xs) = x ∷ remove k xs

abbrev pub give_back : Option ℕ → List Bool → List Bool
give_back none fils = fils
give_back (some i) fils = set fils i false

-- The counts of the speed report, which starts anew after each `speedloop` datagrams.
unfoldable pub count_received : ℕ → ℕ → Listener → Listener
count_received speedloop n l =
    let loops = (l.loops + 1) % 2 ^ 64 in
    let total = (l.total + n) % 2 ^ 64 in
    record l { loops = loops; total = if loops % speedloop == 0 then 0 else total }

-- waitordispatch ends for the job at place k among those that run.
abbrev pub end_job : ℕ → ℕ → Option Job → Listener → Listener
end_job speedloop k none l = l
end_job speedloop k (some job) l =
    count_received speedloop job.n
      (record l { fils = give_back job.slot l.fils; jobs = remove k l.jobs })

-- The loop and the jobs, in any order.
pub data Step (speedloop : ℕ) : Listener → Listener → Type 0 where
  turns : (r : Received) (l : Listener) → Step speedloop l (listen_turn r l)
  ends : (k : ℕ) (l : Listener) → Step speedloop l (end_job speedloop k (get_elem? l.jobs k) l)

pub data Steps (speedloop : ℕ) : Listener → Listener → Type 0 where
  here : (l : Listener) → Steps speedloop l l
  and_then : {l m n : Listener} → Step speedloop l m → Steps speedloop m n → Steps speedloop l n

-- What a job does with its datagram: wait does not hand it on, or the packet goes to dispatch; a
-- packet with parts missing would be a panic.
pub data Handled : Type 0 where
  waited : Waited → Handled
  dispatched : Verdict → Handled
  unfinished : Handled

-- The code outside the repository that a job calls.
pub record Decoders : Type 0 where
  pub b14 : Option (List ℕ → Option (List ℕ))
  pub little : Bool
  pub md5 : List ℕ → List ℕ
  pub blake : List ℕ → List ℕ
  pub unzstd : List ℕ → Option (List ℕ)
  pub registered : ℕ → Bool

abbrev pub with_me : Host → Verdict × Me → Handled × Host
with_me m (v, me) = (dispatched v, record m { host = me })

abbrev pub hand_on : Decoders → ℕ → ℕ → Waited × Host → Handled × Host
hand_on d addr now (arrived pb, m) =
    if not (has_finished pb.dat)
    then (unfinished, m)
    else with_me m
        (dispatch d.little d.md5 d.blake d.unzstd d.registered addr now pb.dat pb.buffer m.host)
hand_on d addr now (w, m) = (waited w, m)

unfoldable pub wait_or_dispatch : Decoders → PacketBuf → ℕ → ℕ → ℕ → List ℕ → Host → Handled × Host
wait_or_dispatch d fresh mask addr now bytes m =
    hand_on d addr now (wait d.b14 d.little d.md5 fresh mask addr now bytes m)
