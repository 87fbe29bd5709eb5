-- ===== src/Algo/Xor/RoundTrip.antt =====
-- What DecodeXOR recovers from the output of EncodeXOR.
use wire_gold.Common.{
  ◌==◌, le→ltb, lt→leb, ==_iff, length, get_or, take, drop, replicate, length-append, length-drop,
  length-replicate, take-append-drop, take-append, drop-append, All-append, All-drop,
  get_or-append_last, take_front, bit_xor-lt, IsByte, AreBytes, put_uint, get_uint, length-put_uint,
  put_uint-AreBytes, get_uint-put_uint, get_uint-lt, put_uint-get_uint, get_uint-take, ℕ, zero, suc,
  ◌+◌, ◌-◌, ◌*◌, ◌/◌, ◌%◌, ◌^◌, ◌<◌, bit_xor, ◌≡◌, refl, sym, ap, ap₂, ◌∙◌, true, some, List, [],
  ◌∷◌, ◌++◌, append_assoc, arith,
}
use wire_gold.Algo.Xor.{
  encode_xor_len, encode_xor, decode_xor, xor_batches, unxor_batches, xor_tail, decoded_part,
  read_plain,
}
use wire_gold.Algo.Xor.Chain.{unxor-word, unxor_batches-xor_batches}

length-xor_batches : (n sum : ℕ) (bytes : List ℕ) → length (xor_batches n sum bytes).0 ≡ n * 8
unfolding xor_batches
length-xor_batches zero sum bytes = refl
length-xor_batches (suc n) sum bytes =
    let next = bit_xor sum (get_uint 8 bytes) in
    omega (
      arith,
      length-append (put_uint 8 next) (xor_batches n next (drop 8 bytes)).0,
      length-put_uint 8 next,
      length-xor_batches n next (drop 8 bytes),
    )

-- The masked datagram has the length that EncodeXORLen announces.
pub length-encode_xor :
    (seqrand bytes : List ℕ) (mask seq : ℕ)
    → length (encode_xor seqrand bytes mask seq) ≡ encode_xor_len (length bytes)
unfolding encode_xor encode_xor_len
length-encode_xor seqrand bytes mask seq =
    let first = bit_xor mask (get_uint 8 (put_uint 4 seq ++ seqrand)) in
    let body = xor_batches (length bytes / 8) first bytes in
    let tail = xor_tail (drop (length bytes / 8 * 8) bytes) (length bytes % 8) in
    omega (
      arith,
      length-append (put_uint 8 first) (body.0 ++ put_uint 8 (bit_xor body.1 (get_uint 8 tail))),
      length-append body.0 (put_uint 8 (bit_xor body.1 (get_uint 8 tail))),
      length-put_uint 8 first,
      length-put_uint 8 (bit_xor body.1 (get_uint 8 tail)),
      length-xor_batches (length bytes / 8) first bytes,
    )

replicate-AreBytes : (n : ℕ) → AreBytes (replicate n 0)
replicate-AreBytes zero = tt
replicate-AreBytes (suc n) = (omega arith, replicate-AreBytes n)

module _ (left : List ℕ) (remain : ℕ) (count : length left ≡ remain) (short : remain < 8) where
  length-xor_tail : length (xor_tail left remain) ≡ 8
  unfolding xor_tail
  length-xor_tail = omega (
    arith,
    length-append left (replicate (7 - remain) 0 ++ (remain ∷ [])),
    length-append (replicate (7 - remain) 0) (remain ∷ []),
    length-replicate {A = ℕ} (7 - remain) 0,
  )

  xor_tail-AreBytes : AreBytes left → AreBytes (xor_tail left remain)
  unfolding xor_tail
  xor_tail-AreBytes h = All-append IsByte left _ h (
      All-append IsByte (replicate (7 - remain) 0) _ (replicate-AreBytes (7 - remain))
        (omega arith, tt))

  -- Writing the value of the last word gives its bytes.
  put_uint-xor_tail :
      AreBytes left → put_uint 8 (get_uint 8 (xor_tail left remain)) ≡ xor_tail left remain
  put_uint-xor_tail h =
      put_uint-get_uint 8 (xor_tail left remain) (xor_tail-AreBytes h) length-xor_tail

rejoin :
    (n : ℕ) (bytes : List ℕ) (remain : ℕ)
    → take (n * 8) bytes ++ xor_tail (drop (n * 8) bytes) remain
      ≡ bytes ++ (replicate (7 - remain) 0 ++ (remain ∷ []))
unfolding xor_tail
rejoin n bytes remain =
    sym (append_assoc (take (n * 8) bytes) (drop (n * 8) bytes) _)
    ∙ ap (λ l. l ++ (replicate (7 - remain) 0 ++ (remain ∷ []))) (take-append-drop (n * 8) bytes)

-- What DecodeXOR reads off the unmasked words.
read_plain-words :
    (seq_word bytes zeros : List ℕ) (remain : ℕ)
    → length seq_word ≡ 8
    → remain < 8
    → length zeros + remain ≡ 7
    → read_plain (seq_word ++ (bytes ++ (zeros ++ (remain ∷ []))))
      ≡ (get_uint 4 seq_word, some bytes)
unfolding read_plain decoded_part
read_plain-words seq_word bytes zeros remain h k e =
    rw (last, decoded, lt→leb 8 remain k, first) refl
  where
    plain : List ℕ
    plain = seq_word ++ (bytes ++ (zeros ++ (remain ∷ [])))

    last : get_or plain (length plain - 1) 0 ≡ remain
    last =
        rw
          (
            ← append_assoc bytes zeros (remain ∷ []),
            ← append_assoc seq_word (bytes ++ zeros) (remain ∷ []),
          )
          (get_or-append_last (seq_word ++ (bytes ++ zeros)) remain 0 _
            (omega (arith, length-append (seq_word ++ (bytes ++ zeros)) (remain ∷ []))))

    decoded : decoded_part plain remain ≡ bytes
    decoded =
        let front : length (seq_word ++ bytes) ≡ length plain - 8 + remain = omega (
          arith,
          length-append seq_word bytes,
          length-append seq_word (bytes ++ (zeros ++ (remain ∷ []))),
          length-append bytes (zeros ++ (remain ∷ [])),
          length-append zeros (remain ∷ []),
        ) in
        ap (drop 8) (
          ap (take (length plain - 8 + remain)) (sym (append_assoc seq_word bytes _))
          ∙ take-append (length plain - 8 + remain) (seq_word ++ bytes) (zeros ++ (remain ∷ []))
              front)
        ∙ drop-append 8 seq_word bytes h

    first : get_uint 4 plain ≡ get_uint 4 seq_word
    first =
        get_uint-take 4 plain
        ∙ ap (get_uint 4) (take_front 4 8 seq_word _ h (omega arith))
        ∙ sym (get_uint-take 4 seq_word)

module _ (seqrand bytes : List ℕ) (mask seq : ℕ) (drawn : length seqrand ≡ 4)
    (drawn_bytes : AreBytes seqrand) (are_bytes : AreBytes bytes) (mask_fits : mask < 2 ^ 64) where
  seq_word : List ℕ
  seq_word = put_uint 4 seq ++ seqrand

  seq_word-AreBytes : AreBytes (put_uint 4 seq ++ seqrand)
  seq_word-AreBytes =
      All-append IsByte (put_uint 4 seq) seqrand (put_uint-AreBytes 4 seq) drawn_bytes

  length-seq_word : length (put_uint 4 seq ++ seqrand) ≡ 8
  length-seq_word = omega (arith, length-append (put_uint 4 seq) seqrand, length-put_uint 4 seq)

  unmasked :
      unxor_batches (suc (suc (length bytes / 8))) mask (encode_xor seqrand bytes mask seq)
      ≡ (put_uint 4 seq ++ seqrand)
        ++ (bytes ++ (replicate (7 - length bytes % 8) 0 ++ ((length bytes % 8) ∷ [])))
  unfolding encode_xor
  unmasked =
      let n = length bytes / 8 in
      let word = put_uint 4 seq ++ seqrand in
      let first = bit_xor mask (get_uint 8 word) in
      let left = drop (n * 8) bytes in
      let tail = xor_tail left (length bytes % 8) in
      let last = get_uint 8 tail in
      let counted : length left ≡ length bytes % 8 = omega (arith, length-drop (n * 8) bytes) in
      let left_bytes : AreBytes left = All-drop IsByte (n * 8) bytes are_bytes in
      let body = xor_batches n first bytes in
      let fits : first < 2 ^ 64 =
        bit_xor-lt 64 mask (get_uint 8 word) mask_fits (get_uint-lt 8 word seq_word-AreBytes) in
      unxor-word (suc n) mask (get_uint 8 word) (body.0 ++ put_uint 8 (bit_xor body.1 last)) fits
      ∙ ap (λ l. put_uint 8 (get_uint 8 word) ++ l)
          (unxor_batches-xor_batches n first bytes last are_bytes (omega arith) fits
            (get_uint-lt 8 tail (xor_tail-AreBytes left _ counted (omega arith) left_bytes)))
      ∙ ap₂ ◌++◌ (put_uint-get_uint 8 word seq_word-AreBytes length-seq_word) (
          ap (λ l. take (n * 8) bytes ++ l)
            (put_uint-xor_tail left _ counted (omega arith) left_bytes)
          ∙ rejoin n bytes (length bytes % 8))

  -- Under the mask of 64 bits that it was encoded with, a datagram of bytes decodes to its 32-bit
  -- sequence number and its data, whatever four bytes were drawn.
  pub decode_xor-encode_xor :
      seq < 2 ^ 32 → decode_xor (encode_xor seqrand bytes mask seq) mask ≡ (seq, some bytes)
  unfolding decode_xor encode_xor_len
  decode_xor-encode_xor seq_fits =
      let len : length (encode_xor seqrand bytes mask seq) ≡ 8 + length bytes / 8 * 8 + 8 =
        length-encode_xor seqrand bytes mask seq in
      let words : length (encode_xor seqrand bytes mask seq) / 8 ≡ suc (suc (length bytes / 8)) =
        omega arith in
      rw
        (
          le→ltb (length (encode_xor seqrand bytes mask seq)) 16 (omega arith),
          whole len,
          words,
          unmasked,
        )
        (read_plain-words (put_uint 4 seq ++ seqrand) bytes (replicate (7 - length bytes % 8) 0)
            (length bytes % 8) length-seq_word (omega arith)
            (omega (arith, length-replicate {A = ℕ} (7 - length bytes % 8) 0))
          ∙ ap (λ (t : ℕ). (t, some bytes)) (get_uint-put_uint 4 seq seqrand (omega arith)))
    where
      whole :
          length (encode_xor seqrand bytes mask seq) ≡ 8 + length bytes / 8 * 8 + 8
          → (length (encode_xor seqrand bytes mask seq) % 8 == 0) ≡ true
      whole e = (==_iff _ 0).1 (omega arith)
