-- ===== src/Head/Builder/Split/Fit.antt =====
-- The size of the datagrams that Split's fragments become.

use wire_gold.Common.{
  ltb, ◌==◌, le→ltb, lt→leb, le→leb, Bool-cases, length, drop, All, length-take, length-drop,
  All-weaken, ℕ, zero, suc, ◌+◌, ◌-◌, ◌*◌, ◌%◌, ◌^◌, ◌≤◌, ◌<◌, ◌≡◌, refl, ap, ◌∙◌, ◌≢◌, inl, inr,
  true, false, List, [], ◌∷◌, append-nil, arith, dec_lt,
}
use wire_gold.Algo.Xor.{encode_xor_len}
use wire_gold.Head.Packet.{PacketBuf}
use wire_gold.Head.Builder.{datasize, set_offset, set_no_frag, set_has_more}
use wire_gold.Head.Builder.Split.{parts, cut, fragment_count, split}
use wire_gold.Head.Builder.Split.Cover.{
  IsSlice, bodies, bodies-cut_all, end_of, end_of_bounds, fragment_count_bounds,
}

-- The length of the masked datagram of a fragment.
abbrev pub datagram_len : PacketBuf → ℕ
datagram_len pb = encode_xor_len (length pb.buffer + 32)

encode_xor_len-bound : (n : ℕ) → encode_xor_len n ≤ n + 16
unfolding encode_xor_len
encode_xor_len-bound n = omega arith

encode_xor_len-words : (n m : ℕ) → m % 8 ≡ 0 → n + 9 ≤ m → encode_xor_len n ≤ m
unfolding encode_xor_len
encode_xor_len-words n m h k = omega arith

encode_xor_len-exceeds : (m : ℕ) → m % 8 ≢ 0 → 9 ≤ m → m < encode_xor_len (m - 9)
unfolding encode_xor_len
encode_xor_len-exceeds m h k = omega arith

module _ (slice : ℕ → ℕ → List ℕ → List ℕ) (is_slice : IsSlice slice) where
  pub length-slice :
      (bytes : List ℕ) (d i : ℕ)
      → i * d < length bytes
      → length (slice (i * d) (end_of (length bytes) d i) bytes) ≡ end_of (length bytes) d i - i * d
  length-slice bytes d i h =
      let b = end_of (length bytes) d i in
      let bounds = end_of_bounds (length bytes) d i h in
      rw (is_slice (i * d) b bytes bounds.0 bounds.1)
        (omega (arith, length-take (b - i * d) (drop (i * d) bytes), length-drop (i * d) bytes))

  -- Every fragment holds one byte at least and the limit at most.
  pub cut-bounds :
      (ub : PacketBuf) (d n i : ℕ)
      → 0 < d
      → (i + n) * d < length ub.buffer + d
      → All (λ pb. (0 < length pb.buffer) × (length pb.buffer ≤ d)) (cut slice ub d n i)
  unfolding cut
  cut-bounds ub d zero i h lo = tt
  cut-bounds ub d (suc n) i h lo = (
    ground (arith, length-slice ub.buffer d i (omega arith)),
    cut-bounds ub d n (i + 1) h (omega arith),
  )

-- The builder that the fragments are copies of, and the limit on their bytes.
unfoldable pub fragmented : PacketBuf → PacketBuf
fragmented ub = record (datasize ub) {
  dat = set_has_more true (set_no_frag false (datasize ub).dat);
}

abbrev pub limit_of : ℕ → ℕ
limit_of mtu = mtu - 9 - 32

cut-first :
    (slice : ℕ → ℕ → List ℕ → List ℕ) (ub : PacketBuf) (d n : ℕ)
    → 0 < n
    → (pbs : List PacketBuf) × (cut slice ub d n 0
        ≡ record {
          dat = set_offset (0 * d % 2 ^ 16) ub.dat;
          buffer = slice (0 * d) (end_of (length ub.buffer) d 0) ub.buffer;
        }
          ∷ pbs)
unfolding cut
cut-first slice ub d zero h = absurd (omega arith)
cut-first slice ub d (suc n) h = (_, refl)

module _ (slice : ℕ → ℕ → List ℕ → List ℕ) (mtu : ℕ) (ub : PacketBuf) (roomy : 42 ≤ mtu) where
  pub split_small :
      datagram_len ub ≤ mtu
      → split slice mtu false ub
        ≡ parts (
            record (datasize ub) {
              dat = set_offset 0 (set_has_more false (set_no_frag false (datasize ub).dat));
            }
            ∷ [])
  unfolding split datasize
  split_small h = rw (le→leb (datagram_len ub) mtu h) refl

  pub split_large :
      mtu < datagram_len ub
      → split slice mtu false ub
        ≡ parts (
            cut slice
              (fragmented ub)
              (limit_of mtu)
              (fragment_count (length ub.buffer) (limit_of mtu))
              0)
  unfolding split datasize fragmented
  split_large h =
      rw (lt→leb (datagram_len ub) mtu h, le→ltb mtu 41 (omega arith), other (omega arith)) refl
    where
      other : 0 < limit_of mtu → (limit_of mtu == 0) ≡ false
      other k = ground arith

module _ (slice : ℕ → ℕ → List ℕ → List ℕ) (is_slice : IsSlice slice) (mtu : ℕ) (ub : PacketBuf)
    (roomy : 42 ≤ mtu) where
  large_bounds :
      mtu < datagram_len ub
      → All
          (λ pb. (0 < length pb.buffer) × (length pb.buffer ≤ limit_of mtu))
          (cut slice
            (fragmented ub)
            (limit_of mtu)
            (fragment_count (length ub.buffer) (limit_of mtu))
            0)
  unfolding fragmented datasize
  large_bounds large =
      cut-bounds slice is_slice (fragmented ub) (limit_of mtu) _ 0 (omega arith)
        (omega (arith, fragment_count_bounds (length ub.buffer) (limit_of mtu) (omega arith)))

  -- From an mtu of 42 on, and with a Slice that gives the bytes between its bounds, Split returns
  -- fragments whose bytes in order are the body, and no masked datagram is longer than the mtu by
  -- more than 7.
  pub split_covers :
      (pbs : List PacketBuf) × (split slice mtu false ub ≡ parts pbs)
      × (bodies pbs ≡ ub.buffer)
      × All (λ pb. datagram_len pb ≤ mtu + 7) pbs
  unfolding bodies fragmented datasize
  split_covers = elim (dec_lt mtu (datagram_len ub)) [
    | yes large ↦ (
      _,
      split_large slice mtu ub roomy large,
      bodies-cut_all slice is_slice (fragmented ub) (limit_of mtu) (omega arith),
      All-weaken (λ pb. (0 < length pb.buffer) × (length pb.buffer ≤ limit_of mtu)) _ _
          (λ pb h. omega (arith, encode_xor_len-bound (length pb.buffer + 32)))
          (large_bounds large),
    )
    | no small ↦
        (_, split_small slice mtu ub roomy (omega arith), append-nil ub.buffer, (omega arith, tt))
  ]

  -- From an mtu of 42 on that is a multiple of 8, and with a Slice that gives the bytes between
  -- its bounds, Split returns fragments and every masked datagram fits the mtu.
  pub split_fits :
      mtu % 8 ≡ 0
      → (pbs : List PacketBuf) × (split slice mtu false ub ≡ parts pbs)
        × All (λ pb. datagram_len pb ≤ mtu) pbs
  unfolding fragmented datasize
  split_fits words = elim (dec_lt mtu (datagram_len ub)) [
    | yes large ↦ (
      _,
      split_large slice mtu ub roomy large,
      All-weaken (λ pb. (0 < length pb.buffer) × (length pb.buffer ≤ limit_of mtu)) _ _
          (λ pb h. encode_xor_len-words (length pb.buffer + 32) mtu words (omega arith))
          (large_bounds large),
    )
    | no small ↦ (_, split_small slice mtu ub roomy (omega arith), (omega arith, tt))
  ]

  first_end :
      (bodylen : ℕ)
      → mtu % 8 ≢ 0
      → mtu < encode_xor_len (bodylen + 32)
      → mtu < encode_xor_len (end_of bodylen (limit_of mtu) 0 - 0 * limit_of mtu + 32)
  first_end bodylen odd large = elim (Bool-cases (ltb bodylen ((0 + 1) * limit_of mtu))) [
    | inl short ↦ rw (short, start bodylen) large
    | inr long ↦
        rw (long, start' (limit_of mtu) (omega arith))
          (encode_xor_len-exceeds mtu odd (omega arith))
  ]
    where
      start : (b : ℕ) → b - 0 * limit_of mtu ≡ b
      start b = omega arith

      start' : (d : ℕ) → d + 41 ≡ mtu → (0 + 1) * d - 0 * d + 32 ≡ mtu - 9
      start' d e = omega arith

  -- With an mtu from 42 on that is not a multiple of 8, a body that is not empty and does not fit
  -- one datagram, and a Slice that gives the bytes between its bounds, the datagram of the first
  -- fragment is longer than the mtu.
  pub split_exceeds :
      mtu % 8 ≢ 0
      → 0 < length ub.buffer
      → mtu < datagram_len ub
      → (pb : PacketBuf) × (pbs : List PacketBuf) × (split slice mtu false ub ≡ parts (pb ∷ pbs))
        × (mtu < datagram_len pb)
  unfolding fragmented datasize
  split_exceeds odd some_body large =
      let d = limit_of mtu in
      let n = fragment_count (length ub.buffer) d in
      let begun =
        cut-first slice (fragmented ub) d n
          (counted n (omega (arith, fragment_count_bounds (length ub.buffer) d (omega arith)))) in
      (
        _,
        begun.0,
        split_large slice mtu ub roomy large ∙ ap parts begun.1,
        rw (length-slice slice is_slice ub.buffer d 0 (omega arith))
            (first_end (length ub.buffer) odd large),
      )
    where
      counted : (n : ℕ) → 0 < n * limit_of mtu → 0 < n
      counted zero h = absurd (omega arith)
      counted (suc n) h = omega arith
