-- ===== src/Examples/Listen.antt =====
-- The listener at concrete inputs.
use wire_gold.Common.{refl, inl}
use wire_gold.Link.Listen.{Listener, started, listen_turn, Steps, got, turns, here, and_then}
use wire_gold.Link.Listen.Slots.{IsExclusive, IsLost}
use wire_gold.Link.Listen.Jobs.{Steps-IsExclusive}
use wire_gold.Link.Listen.Lost.{no_job_loses_buffer}

abbrev one_job : Listener
one_job = listen_turn (got 5) (started 2)

first_turn : Steps 4 (started 2) one_job
first_turn = and_then (turns (got 5) (started 2)) (here one_job)

Steps-IsExclusive_example : IsExclusive one_job
Steps-IsExclusive_example = Steps-IsExclusive 4 2 one_job first_turn

no_job_loses_buffer_example : IsLost 1 (listen_turn (got 0) one_job)
unfolding listen_turn started
no_job_loses_buffer_example =
    no_job_loses_buffer 4 2 1 (got 0) one_job (listen_turn (got 0) one_job) first_turn refl refl
      (inl refl) (here (listen_turn (got 0) one_job))
