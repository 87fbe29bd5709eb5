-- ===== src/Examples/Upper.antt =====
-- The tunnel at concrete inputs.
use wire_gold.Common.{
  All, get_uint, ℕ, zero, suc, ◌<◌, ◌≡◌, refl, inl, inr, some, List, [], ◌∷◌, arith,
}
use wire_gold.Upper.Tunnel.{LinkData, Reader, new_reader, handle_read, handle_write}
use wire_gold.Upper.Tunnel.Sort.{IsSent, HasArrived, handle_read-in_order}
use wire_gold.Upper.Tunnel.Cut.{IsStream, blocks_of, concat, handle_write-IsStream}

abbrev blocks : List (List ℕ)
blocks = (1 ∷ 2 ∷ 3 ∷ 4 ∷ 5 ∷ []) ∷ (6 ∷ []) ∷ []

handle_write-IsStream_example :
    (packets : List (List ℕ)) × (next : ℕ) × (handle_write 6 0 (blocks_of blocks) ≡ some packets)
    × IsStream 6 0 (concat blocks) packets next
handle_write-IsStream_example = handle_write-IsStream 6 0 blocks (omega arith) (omega arith)

abbrev numbered : ℕ → ℕ → LinkData
numbered k b = record { size = 5; bytes = k ∷ 0 ∷ 0 ∷ 0 ∷ b ∷ [] }

abbrev sent : List LinkData
sent = numbered 0 7 ∷ numbered 1 8 ∷ []

-- The second arrives first, and twice.
abbrev incoming : List LinkData
incoming = numbered 1 8 ∷ numbered 0 7 ∷ numbered 1 8 ∷ []

incoming-IsSent : All (IsSent sent) incoming
unfolding get_uint
incoming-IsSent = ((refl, omega arith), ((refl, omega arith), ((refl, omega arith), tt)))

all_arrived : (k : ℕ) → k < 2 → HasArrived k incoming
unfolding get_uint
all_arrived zero h = inr (inl refl)
all_arrived (suc zero) h = inl refl
all_arrived (suc (suc k)) h = absurd (omega arith)

handle_read-in_order_example :
    (final : Reader) × (handle_read new_reader incoming ≡ some final) × (final.out ≡ sent)
handle_read-in_order_example =
    handle_read-in_order sent incoming (omega arith) incoming-IsSent all_arrived
