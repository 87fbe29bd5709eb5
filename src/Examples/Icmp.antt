-- ===== src/Examples/Icmp.antt =====
-- The ICMP transport at concrete inputs.
use wire_gold.Common.{◌≡◌, refl, true, List, [], ◌∷◌, arith}
use wire_gold.P2p.Icmp.{v4, new_peer_state, same_addr}
use wire_gold.P2p.Icmp.Hear.{Request, hear_all}
use wire_gold.P2p.Icmp.Answer.{answers, replies, answers-hear_all}

abbrev heard : List Request
heard =
    (record { from = v4 1; id = 7; seq = 40; content = [] })
    ∷ (record { from = v4 2; id = 9; seq = 50; content = [] })
    ∷ (record { from = v4 1; id = 7; seq = 41; content = 3 ∷ [] })
    ∷ []

answers-hear_all_example :
    answers 1000 (v4 1) ((1 ∷ []) ∷ (2 ∷ []) ∷ []) (hear_all 8192 heard [])
    ≡ replies (v4 1) 7 (40 ∷ 41 ∷ []) ((1 ∷ []) ∷ (2 ∷ []) ∷ [])
unfolding new_peer_state
answers-hear_all_example =
    answers-hear_all 8192 1000 (v4 1) 7 heard ((1 ∷ []) ∷ (2 ∷ []) ∷ []) []
      (λ (e : 7 ≡ 0). omega arith)
      (
        (λ (e : same_addr (v4 1) (v4 1) ≡ true). refl),
        (
          (λ (e : same_addr (v4 1) (v4 2) ≡ true). absurd (cc)),
          ((λ (e : same_addr (v4 1) (v4 1) ≡ true). refl), tt),
        ),
      )
      refl (omega arith) refl
