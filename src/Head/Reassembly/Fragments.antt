-- ===== src/Head/Reassembly/Fragments.antt =====
-- The fragments that Split cuts, as pieces of the body.
use wire_gold.Common.{
  length, get_or, drop, Some, All, length-append, ℕ, zero, suc, ◌+◌, ◌-◌, ◌*◌, ◌%◌, ◌^◌, ◌≤◌, ◌<◌,
  ◌≡◌, refl, sym, ap, ap₂, ◌∙◌, inl, inr, true, List, [], ◌∷◌, ◌++◌, arith, dec_lt,
}
use mathlib.Core.List.{map}
use wire_gold.Head.Packet.{Packet, PacketBuf}
use wire_gold.Head.Header.{write_header_to}
use wire_gold.Head.Unbox.Read.{header_bytes}
use wire_gold.Head.Unbox.Segment.{at_offset}
use wire_gold.Head.Builder.{set_offset}
use wire_gold.Head.Builder.Split.{cut, build_packet_from_bytes}
use wire_gold.Head.Builder.Split.Cover.{IsSlice, bodies, end_of, end_of_bounds}
use wire_gold.Head.Builder.Split.Fit.{length-slice}
use wire_gold.Head.Reassembly.Paste.{Piece, IsPiece, InPiece, get_or-take, get_or-drop}
use wire_gold.Head.Reassembly.Count.{total, wires}
use wire_gold.Head.Reassembly.Order.{IsFirst}

-- A fragment as a piece of the body.
abbrev pub piece_of : PacketBuf → Piece
piece_of pb = (pb.dat.offset, pb.buffer)

-- A copy of the builder `base` at its own offset, with the bytes of the body that stand there.
abbrev pub IsFragment : Packet → List ℕ → PacketBuf → Type 0
IsFragment base body pb = (pb.dat ≡ at_offset base pb.dat.offset) × IsPiece body (piece_of pb)

pub wires-fragments :
    (md5 : List ℕ → List ℕ) (base : Packet) (body : List ℕ) (pbs : List PacketBuf)
    → All (IsFragment base body) pbs
    → wires md5 base (map piece_of pbs) ≡ map (build_packet_from_bytes true md5) pbs
unfolding wires build_packet_from_bytes header_bytes
wires-fragments md5 base body [] h = refl
wires-fragments md5 base body (pb ∷ pbs) h =
    ap₂ ◌∷◌ (ap (λ (p : Packet). (write_header_to true md5 p []).1 ++ pb.buffer) (sym h.0.0))
      (wires-fragments md5 base body pbs h.1)

pub pieces-of :
    (base : Packet) (body : List ℕ) (pbs : List PacketBuf)
    → All (IsFragment base body) pbs
    → All (IsPiece body) (map piece_of pbs)
pieces-of base body [] h = tt
pieces-of base body (pb ∷ pbs) h = (h.0.1, pieces-of base body pbs h.1)

pub total-bodies : (pbs : List PacketBuf) → total (map piece_of pbs) ≡ length (bodies pbs)
unfolding total bodies
total-bodies [] = refl
total-bodies (pb ∷ pbs) = omega (arith, length-append pb.buffer (bodies pbs), total-bodies pbs)

pub Some-map :
    (P : Piece → Type 0) (pbs : List PacketBuf)
    → Some (λ pb. P (piece_of pb)) pbs
    → Some P (map piece_of pbs)
Some-map P [] h = h
Some-map P (pb ∷ pbs) (inl h) = inl h
Some-map P (pb ∷ pbs) (inr h) = inr (Some-map P pbs h)

module _ (slice : ℕ → ℕ → List ℕ → List ℕ) (is_slice : IsSlice slice) (ub : PacketBuf) (d : ℕ)
    (short : length ub.buffer < 2 ^ 16) where
  slice-IsPiece :
      (i : ℕ)
      → 0 < d
      → i * d < length ub.buffer
      → IsPiece ub.buffer (i * d % 2 ^ 16, slice (i * d) (end_of (length ub.buffer) d i) ub.buffer)
  slice-IsPiece i h lo =
      let b = end_of (length ub.buffer) d i in
      let bounds = end_of_bounds (length ub.buffer) d i lo in
      let count = length-slice slice is_slice ub.buffer d i lo in
      (
        ground (arith, count),
        omega (arith, count, bounds.0, bounds.1),
        λ j lt.
            ap (λ (l : List ℕ). get_or l j 0) (is_slice (i * d) b ub.buffer bounds.0 bounds.1)
            ∙ get_or-take (b - i * d) (drop (i * d) ub.buffer) j (omega arith)
            ∙ get_or-drop (i * d) ub.buffer j
            ∙ ap (λ (t : ℕ). get_or ub.buffer t 0) {y = i * d % 2 ^ 16 + j} (omega arith),
      )

  pub cut-IsFragment :
      (n i : ℕ)
      → 0 < d
      → (i + n) * d < length ub.buffer + d
      → All (IsFragment ub.dat ub.buffer) (cut slice ub d n i)
  unfolding cut set_offset
  cut-IsFragment zero i h lo = tt
  cut-IsFragment (suc n) i h lo =
      ((refl, slice-IsPiece i h (omega arith)), cut-IsFragment n (i + 1) h (omega arith))

  pub cut-covers :
      (n i j : ℕ)
      → (i + n) * d < length ub.buffer + d
      → length ub.buffer ≤ (i + n) * d
      → i * d ≤ j
      → j < length ub.buffer
      → Some (λ pb. InPiece (piece_of pb) j) (cut slice ub d n i)
  unfolding cut set_offset
  cut-covers zero i j lo hi from below = absurd (omega arith)
  cut-covers (suc n) i j lo hi from below = elim (dec_lt j ((i + 1) * d)) [
    | yes here ↦
        inl (omega arith, ground (arith, length-slice slice is_slice ub.buffer d i (omega arith)))
    | no later ↦ inr (cut-covers n (i + 1) j (omega arith) (omega arith) (omega arith) below)
  ]

  pub cut-starts : (n : ℕ) → 0 < n → Some (λ pb. IsFirst (piece_of pb)) (cut slice ub d n 0)
  unfolding cut set_offset
  cut-starts zero h = absurd (omega arith)
  cut-starts (suc n) h = inl (omega arith)
