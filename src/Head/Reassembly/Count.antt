-- ===== src/Head/Reassembly/Count.antt =====
-- The count of the bytes still to come, over the segments of one packet in any order.
use wire_gold.Common.{
  ltb, ◌==◌, if◌then◌else◌, length, All, ℕ, ◌+◌, ◌-◌, ◌^◌, ◌≤◌, ◌<◌, ◌≡◌, refl, ◌∙◌, Bool, not,
  some, List, [], ◌∷◌, arith,
}
use wire_gold.Head.Packet.{Packet}
use wire_gold.Head.Unbox.{copy_at, write_data_segment}
use wire_gold.Head.Unbox.Read.{IsPacket, IsDigest, crc_of}
use wire_gold.Head.Unbox.Segment.{waiting, at_offset, wire, write_fragment}
use wire_gold.Head.Reassembly.{write_all}
use wire_gold.Head.Reassembly.Paste.{Piece, IsPiece, paste, length-copy_at}

unfoldable pub total : List Piece → ℕ
total [] = 0
total (q ∷ qs) = length q.1 + total qs

unfoldable pub wires : (List ℕ → List ℕ) → Packet → List Piece → List (List ℕ)
wires md5 base [] = []
wires md5 base (q ∷ qs) = wire md5 base q.0 q.1 ∷ wires md5 base qs

-- The offset and the checksum that the packet holds after the segments.
unfoldable pub offset_after : ℕ → List Piece → ℕ
offset_after o [] = o
offset_after o (q ∷ qs) = offset_after (if q.0 == 0 then 0 else o) qs

unfoldable pub crc_after : (List ℕ → List ℕ) → Packet → ℕ → List Piece → ℕ
crc_after md5 base crc [] = crc
crc_after md5 base crc (q ∷ qs) =
    crc_after md5 base (if q.0 == 0 then crc_of md5 (at_offset base q.0) else crc) qs

write_all-cons :
    (complete : Bool) (p : Packet) (buf w : List ℕ) (ws : List (List ℕ)) {complete' : Bool}
    {p' : Packet} {buf' : List ℕ}
    → write_data_segment p w buf ≡ some (complete', p', buf')
    → write_all complete p buf (w ∷ ws) ≡ write_all complete' p' buf' ws
unfolding write_all
write_all-cons complete p buf w ws e = rw (e, write_all) refl

module _ (md5 : List ℕ → List ℕ) (base : Packet) (body : List ℕ) (digest : IsDigest md5)
    (v : (o : ℕ) → o < 2 ^ 16 → IsPacket (at_offset base o)) (short : length body < 2 ^ 16) where
  -- While no more bytes arrive than are missing, every segment is counted and copied; the packet
  -- is complete exactly if no byte is missing after the last one.
  pub write_all-pieces :
      (qs : List Piece) (complete : Bool) (o crc rem : ℕ) (buf : List ℕ)
      → All (IsPiece body) qs
      → length buf ≡ length body
      → total qs ≤ rem
      → complete ≡ not (ltb 0 rem)
      → write_all complete (waiting base o crc rem) buf (wires md5 base qs)
        ≡ some (
          not (ltb 0 (rem - total qs)),
          waiting base (offset_after o qs) (crc_after md5 base crc qs) (rem - total qs),
          paste buf qs,
        )
  unfolding write_all wires total offset_after crc_after paste
  write_all-pieces [] complete o crc rem buf pieces same enough flag = rw (flag, whole) refl
    where
      whole : rem - 0 ≡ rem
      whole = omega arith
  write_all-pieces (q ∷ qs) complete o crc rem buf pieces same enough flag =
      let left = rem - length q.1 in
      let o' = if q.0 == 0 then 0 else o in
      let crc' = if q.0 == 0 then crc_of md5 (at_offset base q.0) else crc in
      write_all-cons complete (waiting base o crc rem) buf (wire md5 base q.0 q.1)
        (wires md5 base qs)
        (write_fragment md5 base q.0 q.1 digest (v q.0 (omega (arith, pieces.0.0, pieces.0.1))) o
          crc rem buf pieces.0.0 (omega arith) (omega (arith, pieces.0.1)))
      ∙ write_all-pieces qs (not (ltb 0 left)) o' crc' left (copy_at buf q.0 q.1) pieces.1
          (length-copy_at buf q.0 q.1 (omega (arith, pieces.0.1)) ∙ same) (omega arith) refl
      ∙ rw regroup refl
    where
      regroup : rem - length q.1 - total qs ≡ rem - (length q.1 + total qs)
      regroup = omega arith
