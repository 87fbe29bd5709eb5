-- ===== src/Algo/Xor.antt =====
-- internal/algo/crypto.go: EncodeXORLen, EncodeXOR and DecodeXOR, the masking of every datagram.
-- A slice is the list of its bytes. `seqrand` is what rand.Read puts into buf[4:8].
mod Chain
pub mod RoundTrip
pub mod Reject
use wire_gold.Common.{
  ltb, leb, ◌==◌, if◌then◌else◌, ltb→lt, lt→ltb, leb→le, le→ltb, lt→leb, le→leb, ==_iff, ==_refl,
  Bool-cases, Option-cases, length, get_elem?, get_or, set, take, drop, replicate, All,
  length-append, length-take, length-drop, length-replicate, take-append-drop, take-append,
  drop-append, take-all, drop-all, drop-nil, drop-drop, take-add, All-append, All-take, All-drop,
  get_or-append_last, take_front, bit_or-zero, bit_and-zero, bit_or_fields, bit_and_mask,
  bit_xor_cancel, bit_xor_comm, bit_xor-lt, IsByte, AreBytes, put_uint, get_uint, length-put_uint,
  put_uint-AreBytes, get_uint-put_uint, get_uint-lt, put_uint-get_uint, get_uint-append,
  get_uint-take, ℕ, zero, suc, ◌+◌, ◌-◌, ◌*◌, ◌/◌, ◌%◌, ◌^◌, ◌≤◌, ◌<◌, min, bit_and, bit_or,
  bit_xor, ◌≡◌, refl, sym, ap, ap₂, ◌∙◌, ◌≢◌, ◌↔◌, ◌⊎◌, inl, inr, Bool, true, false, not, ◌&&◌,
  ◌||◌, Option, none, some, List, [], ◌∷◌, ◌++◌, append_assoc, append-nil, arith,
}

unfoldable pub encode_xor_len : ℕ → ℕ
encode_xor_len datalen = let batchsz = datalen / 8 in 8 + batchsz * 8 + 8

-- The loop over the whole words of `data`: the bytes that it writes and the last `sum`.
pub xor_batches : ℕ → ℕ → List ℕ → List ℕ × ℕ
xor_batches zero sum bytes = ([], sum)
xor_batches (suc n) sum bytes =
    let next = bit_xor sum (get_uint 8 bytes) in
    let rest = xor_batches n next (drop 8 bytes) in (put_uint 8 next ++ rest.0, rest.1)

-- The last word: what is left of `data`, zeros, and the count of the bytes left in the last byte.
pub xor_tail : List ℕ → ℕ → List ℕ
xor_tail left remain = left ++ (replicate (7 - remain) 0 ++ (remain ∷ []))

pub encode_xor : List ℕ → List ℕ → ℕ → ℕ → List ℕ
encode_xor seqrand bytes mask seq =
    let batchsz = length bytes / 8 in
    let remain = length bytes % 8 in
    let first = bit_xor mask (get_uint 8 (put_uint 4 seq ++ seqrand)) in
    let body = xor_batches batchsz first bytes in
    let tail = xor_tail (drop (batchsz * 8) bytes) remain in
    put_uint 8 first ++ (body.0 ++ put_uint 8 (bit_xor body.1 (get_uint 8 tail)))

-- The decoding loop, which overwrites each word by its exclusive or with the word before.
pub unxor_batches : ℕ → ℕ → List ℕ → List ℕ
unxor_batches zero sum bytes = bytes
unxor_batches (suc n) sum bytes =
    let x = get_uint 8 bytes in put_uint 8 (bit_xor sum x) ++ unxor_batches n x (drop 8 bytes)

-- data[8 : len(data)-8+remain], where `remain` is below 8.
pub decoded_part : List ℕ → ℕ → List ℕ
decoded_part bytes remain = drop 8 (take (length bytes - 8 + remain) bytes)

-- The end of DecodeXOR, over the unmasked words: the sequence number and the data, or nothing.
pub read_plain : List ℕ → ℕ × Option (List ℕ)
read_plain plain =
    let remain = get_or plain (length plain - 1) 0 in
    if leb 8 remain then (0, none) else (get_uint 4 plain, some (decoded_part plain remain))

pub decode_xor : List ℕ → ℕ → ℕ × Option (List ℕ)
decode_xor bytes mask =
    if ltb (length bytes) 16 || not (length bytes % 8 == 0)
    then (0, none)
    else read_plain (unxor_batches (length bytes / 8) mask bytes)
