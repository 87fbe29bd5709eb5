-- ===== src/Link/Nic/Repeats.antt =====
-- The steps of the loop over IPv6 packets in sendAllSameDst.
use mathlib.Core.Path.{subst}
use wire_gold.Common.{
  ltb, lt→ltb, le→ltb, Bool-cases, length, drop, length-drop, ℕ, zero, suc, ◌+◌, ◌*◌, ◌≤◌, ◌<◌, ◌≡◌,
  refl, sym, ap, ◌∙◌, inl, inr, true, false, some, List, arith,
}
use wire_gold.Link.Nic.{WaterUtil, ends, ipv6_length, skip_ipv6}

-- From the place of the i-th packet on.
skip_ipv6_from :
    (w : WaterUtil) (packet : List ℕ) (k i fuel : ℕ)
    → ((j : ℕ) → j < i + k → w.is_ipv6 (drop (j * ipv6_length packet) packet) ≡ some true)
    → w.is_ipv6 (drop ((i + k) * ipv6_length packet) packet) ≡ some false
    → (i + k) * ipv6_length packet ≤ length packet
    → k < fuel
    → skip_ipv6 w packet fuel (i * ipv6_length packet) ≡ ends (some ((i + k) * ipv6_length packet))
unfolding skip_ipv6
skip_ipv6_from w packet k i zero sixes last inside enough = absurd (omega arith)
skip_ipv6_from w packet zero i (suc fuel) sixes last inside enough =
    let n = i * ipv6_length packet in
    let place : (i + 0) * ipv6_length packet ≡ n = omega arith in
    let at_end : w.is_ipv6 (drop n packet) ≡ some false =
      subst (λ (t : ℕ). w.is_ipv6 (drop t packet) ≡ some false) place last in
    rw place (elim (Bool-cases (ltb 20 (length (drop n packet)))) [
      | inr short ↦ rw short refl
      | inl more ↦ rw (more, at_end) refl
    ])
skip_ipv6_from w packet (suc k) i (suc fuel) sixes last inside enough =
    let n = i * ipv6_length packet in
    let size = length-drop n packet in
    let room : n + ipv6_length packet ≤ length packet = omega arith in
    let more = lt→ltb 20 (length (drop n packet)) (omega arith) in
    let fits = le→ltb (length (drop n packet)) (ipv6_length packet) (omega arith) in
    let next : suc i * ipv6_length packet ≡ n + ipv6_length packet = omega arith in
    let count : suc i + k ≡ i + suc k = omega arith in
    let later : skip_ipv6 w packet fuel (suc i * ipv6_length packet)
        ≡ ends (some ((suc i + k) * ipv6_length packet)) =
      skip_ipv6_from w packet k (suc i) fuel (λ (j : ℕ) (lt : j < suc i + k). sixes j (omega arith))
        (subst (λ (t : ℕ). w.is_ipv6 (drop (t * ipv6_length packet) packet) ≡ some false)
          (sym count) last)
        (omega arith) (omega arith) in
    rw (more, sixes i (omega arith), fits)
      (ap (skip_ipv6 w packet fuel) (sym next)
        ∙ later
        ∙ ap (λ (t : ℕ). ends (some (t * ipv6_length packet))) count)

-- Whatever lengths the later packets declare, the loop over IPv6 packets steps by the length of
-- the first one: when IPv6 is found at the first k multiples of it, none at the next, and these
-- lie within the bytes, it ends there in k + 1 rounds.
pub skip_ipv6_repeats :
    (w : WaterUtil) (packet : List ℕ) (k fuel : ℕ)
    → ((j : ℕ) → j < k → w.is_ipv6 (drop (j * ipv6_length packet) packet) ≡ some true)
    → w.is_ipv6 (drop (k * ipv6_length packet) packet) ≡ some false
    → k * ipv6_length packet ≤ length packet
    → k < fuel
    → skip_ipv6 w packet fuel 0 ≡ ends (some (k * ipv6_length packet))
skip_ipv6_repeats w packet k fuel sixes last inside enough =
    let count : 0 + k ≡ k = omega arith in
    let start : 0 ≡ 0 * ipv6_length packet = omega arith in
    ap (skip_ipv6 w packet fuel) start
    ∙ skip_ipv6_from w packet k 0 fuel (λ (j : ℕ) (lt : j < 0 + k). sixes j (omega arith))
        (subst (λ (t : ℕ). w.is_ipv6 (drop (t * ipv6_length packet) packet) ≡ some false)
          (sym count) last)
        (omega arith) enough
    ∙ ap (λ (t : ℕ). ends (some (t * ipv6_length packet))) count
