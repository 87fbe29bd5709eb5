-- ===== src/Head/Builder/Split/Cover.antt =====
-- The fragments of a body, put one behind the other, are the body.
use native.Mathlib.Nat.{div-add-mod, mod-lt}
use wire_gold.Common.{
  ltb, if◌then◌else◌, ltb→lt, Bool-cases, length, take, drop, take-append-drop, drop-all, drop-drop,
  ℕ, zero, suc, ◌+◌, ◌-◌, ◌*◌, ◌≤◌, ◌<◌, ◌≡◌, refl, sym, ap, ◌∙◌, inl, inr, List, [], ◌∷◌, ◌++◌,
  arith,
}
use wire_gold.Head.Packet.{PacketBuf}
use wire_gold.Head.Builder.Split.{cut, fragment_count}

-- pbuf's Slice(a, b) is Go's, within the bounds.
abbrev pub IsSlice : (ℕ → ℕ → List ℕ → List ℕ) → Type 0
IsSlice slice =
    (a b : ℕ) (bytes : List ℕ)
    → a ≤ b
    → b ≤ length bytes
    → slice a b bytes ≡ take (b - a) (drop a bytes)

unfoldable pub bodies : List PacketBuf → List ℕ
bodies [] = []
bodies (pb ∷ pbs) = pb.buffer ++ bodies pbs

-- Enough fragments for the body, and none of them empty.
pub fragment_count_bounds :
    (bodylen d : ℕ)
    → 0 < d
    → (bodylen ≤ fragment_count bodylen d * d) × (fragment_count bodylen d * d < bodylen + d)
unfolding fragment_count
fragment_count_bounds bodylen d h = ground (arith, div-add-mod bodylen d, mod-lt bodylen h)

-- The end of the fragment that starts at `i * d`.
abbrev pub end_of : ℕ → ℕ → ℕ → ℕ
end_of bodylen d i = if ltb bodylen ((i + 1) * d) then bodylen else (i + 1) * d

pub end_of_bounds :
    (bodylen d i : ℕ)
    → i * d < bodylen
    → (i * d ≤ end_of bodylen d i)
      × (end_of bodylen d i ≤ bodylen)
      × (end_of bodylen d i ≤ i * d + d)
end_of_bounds bodylen d i h = ground arith

drop-end_of :
    (bytes : List ℕ) (d i : ℕ) → drop (end_of (length bytes) d i) bytes ≡ drop ((i + 1) * d) bytes
drop-end_of bytes d i = elim (Bool-cases (ltb (length bytes) ((i + 1) * d))) [
  | inl past ↦ rw past (
      drop-all (length bytes) bytes (omega arith)
      ∙ sym (drop-all ((i + 1) * d) bytes (omega (arith, ltb→lt _ _ past))))
  | inr within ↦ rw within refl
]

module _ (slice : ℕ → ℕ → List ℕ → List ℕ) (is_slice : IsSlice slice) where
  -- One fragment and what stands behind it.
  slice-append-drop :
      (bytes : List ℕ) (d i : ℕ)
      → i * d < length bytes
      → slice (i * d) (end_of (length bytes) d i) bytes ++ drop ((i + 1) * d) bytes
        ≡ drop (i * d) bytes
  slice-append-drop bytes d i h =
      let b = end_of (length bytes) d i in
      let bounds = end_of_bounds (length bytes) d i h in
      rw (is_slice (i * d) b bytes bounds.0 bounds.1, ← drop-end_of bytes d i, ← skip b bounds.0)
        (take-append-drop (b - i * d) (drop (i * d) bytes))
    where
      skip : (b : ℕ) → i * d ≤ b → drop (b - i * d) (drop (i * d) bytes) ≡ drop b bytes
      skip b le = drop-drop (i * d) (b - i * d) bytes ∙ ap (λ (t : ℕ). drop t bytes) (omega arith)

  bodies-cut :
      (ub : PacketBuf) (d n i : ℕ)
      → (i + n) * d < length ub.buffer + d
      → length ub.buffer ≤ (i + n) * d
      → bodies (cut slice ub d n i) ≡ drop (i * d) ub.buffer
  unfolding bodies cut
  bodies-cut ub d zero i lo hi = sym (drop-all (i * d) ub.buffer (omega arith))
  bodies-cut ub d (suc n) i lo hi =
      ap (λ l. slice (i * d) (end_of (length ub.buffer) d i) ub.buffer ++ l)
        (bodies-cut ub d n (i + 1) (omega arith) (omega arith))
      ∙ slice-append-drop ub.buffer d i (omega arith)

  -- Split loses and repeats nothing: the fragments' bytes, in order, are the body.
  pub bodies-cut_all :
      (ub : PacketBuf) (d : ℕ)
      → 0 < d
      → bodies (cut slice ub d (fragment_count (length ub.buffer) d) 0) ≡ ub.buffer
  bodies-cut_all ub d h =
      let bounds = fragment_count_bounds (length ub.buffer) d h in
      bodies-cut ub d (fragment_count (length ub.buffer) d) 0 (omega arith) (omega arith)
      ∙ ap (λ (t : ℕ). drop t ub.buffer) start
    where
      start : 0 * d ≡ 0
      start = omega arith
