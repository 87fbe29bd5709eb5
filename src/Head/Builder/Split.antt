-- ===== src/Head/Builder/Split.antt =====
-- gold/head/builder.go: Split and BuildPacketFromBytes. `slice` stands for pbuf's Bytes.Slice.
pub mod Cover
pub mod Fit
pub mod Ready
use wire_gold.Common.{
  ltb, leb, ◌==◌, if◌then◌else◌, ltb→lt, lt→ltb, leb→le, le→ltb, lt→leb, le→leb, ==_iff, ==_refl,
  Bool-cases, Option-cases, length, get_elem?, get_or, set, take, drop, replicate, All,
  length-append, length-take, length-drop, length-replicate, take-append-drop, take-append,
  drop-append, take-all, drop-all, drop-nil, drop-drop, take-add, All-append, All-take, All-drop,
  get_or-append_last, take_front, bit_or_step, bit_or-zero, bit_and-zero, bit_or_fields,
  bit_and_mask, bit_xor_cancel, bit_xor_comm, bit_or_assoc, bit_xor-lt, IsByte, AreBytes, put_uint,
  get_uint, length-put_uint, put_uint-AreBytes, get_uint-put_uint, get_uint-lt, put_uint-get_uint,
  get_uint-append, get_uint-take, ℕ, zero, suc, ◌+◌, ◌-◌, ◌*◌, ◌/◌, ◌%◌, ◌^◌, ◌≤◌, ◌<◌, min,
  bit_and, bit_or, bit_xor, ◌≡◌, refl, sym, ap, ap₂, ◌∙◌, ◌≢◌, ◌↔◌, ◌⊎◌, inl, inr, Bool, true,
  false, not, ◌&&◌, ◌||◌, Option, none, some, List, [], ◌∷◌, ◌++◌, append_assoc, append-nil, arith,
  pow-suc, dec_lt, ℕ_discrete,
}
use wire_gold.Algo.Xor.{encode_xor_len}
use wire_gold.Head.Packet.{Packet, PacketBuf, packet_head_len}
use wire_gold.Head.Header.{write_header_to}
use wire_gold.Head.Builder.{datasize, set_no_frag, set_has_more, set_offset}

-- What Split returns, or how it stops the program: a division by a zero limit, make with a
-- negative length, or a slice with a negative bound.
pub data Parts : Type 0 where
  parts : List PacketBuf → Parts
  divide_by_zero negative_make negative_slice : Parts

-- pbs[i] = copy.offset(uint16(i*datalim)).Slice(a, b), with `n` fragments to go.
unfoldable pub cut : (ℕ → ℕ → List ℕ → List ℕ) → PacketBuf → ℕ → ℕ → ℕ → List PacketBuf
cut slice ub datalim zero i = []
cut slice ub datalim (suc n) i =
    let bodylen = length ub.buffer in
    let a = i * datalim in
    let b = if ltb bodylen ((i + 1) * datalim) then bodylen else (i + 1) * datalim in
    record { dat = set_offset (i * datalim % 2 ^ 16) ub.dat; buffer = slice a b ub.buffer }
    ∷ cut slice ub datalim n (i + 1)

-- bodylen / datalim, rounded up.
unfoldable pub fragment_count : ℕ → ℕ → ℕ
fragment_count bodylen datalim = bodylen / datalim + (if ltb 0 (bodylen % datalim) then 1 else 0)

-- The count for a limit of -k: Go's quotient is -(bodylen / k), its remainder bodylen % k.
negative_limit : ℕ → ℕ → Parts
negative_limit bodylen k =
    let q = bodylen / k in
    let r = bodylen % k in
    if ltb 0 r
    then (if q == 0 then negative_slice else if q == 1 then parts [] else negative_make)
    else (if q == 0 then parts [] else negative_make)

unfoldable pub split : (ℕ → ℕ → List ℕ → List ℕ) → ℕ → Bool → PacketBuf → Parts
unfolding negative_limit
split slice mtu nofrag ub =
    let sized = datasize ub in
    let bodylen = length sized.buffer in
    let udplen = encode_xor_len (bodylen + packet_head_len) in
    let whole = set_offset 0 (set_has_more false (set_no_frag nofrag sized.dat)) in
    let some_more = record sized { dat = set_has_more true (set_no_frag false sized.dat) } in
    let datalim = mtu - 9 - packet_head_len in
    if leb udplen mtu
    then parts (record sized { dat = whole } ∷ [])
    else if nofrag
    then parts []
    else if ltb mtu 41
    then negative_limit bodylen (41 - mtu)
    else if datalim == 0
    then divide_by_zero
    else parts (cut slice some_more datalim (fragment_count bodylen datalim) 0)

-- The bytes of one fragment on the wire, before the mask.
unfoldable pub build_packet_from_bytes : Bool → (List ℕ → List ℕ) → PacketBuf → List ℕ
build_packet_from_bytes little md5 pb = (write_header_to little md5 pb.dat []).1 ++ pb.buffer
