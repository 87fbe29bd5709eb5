-- ===== src/Head/Builder/Key.antt =====
-- gold/head/builder.go: the key index, the additional data and the size share one word.
use wire_gold.Common.{
  bit_and_mask, bit_or_fields, bit_or_comm, bit_or_assoc, ℕ, ◌+◌, ◌*◌, ◌/◌, ◌%◌, ◌^◌, ◌<◌, bit_and,
  bit_or, ◌≡◌, ap, ◌∙◌, List, arith,
}
use wire_gold.Algo.Seal.{Aead}
use wire_gold.Head.Packet.{PacketBuf, cipher_index, additional_data, size}
use wire_gold.Head.Builder.{tea, additional, seal}

-- The three fields do not overlap.
fields :
    (size teatype extra : ℕ)
    → size < 2 ^ 16
    → teatype < 32
    → extra < 2 ^ 11
    → bit_or (bit_or size (teatype * 2 ^ 27 % 2 ^ 32)) (bit_and extra 0x07ff * 2 ^ 16)
      ≡ teatype * 2 ^ 27 + (extra * 2 ^ 16 + size)
fields size teatype extra sized small short =
    let index : teatype * 2 ^ 27 % 2 ^ 32 ≡ teatype * 2 ^ 27 = omega arith in
    let low_bits : bit_and extra 0x07ff ≡ extra = omega (arith, bit_and_mask 11 extra) in
    let low : bit_or size (extra * 2 ^ 16) ≡ extra * 2 ^ 16 + size =
      bit_or_comm size (extra * 2 ^ 16) ∙ bit_or_fields 16 extra size sized in
    rw (index, low_bits)
      (ap (λ (x : ℕ). bit_or x (extra * 2 ^ 16)) (bit_or_comm size (teatype * 2 ^ 27))
        ∙ bit_or_assoc (teatype * 2 ^ 27) size (extra * 2 ^ 16)
        ∙ ap (bit_or (teatype * 2 ^ 27)) low
        ∙ bit_or_fields 27 teatype (extra * 2 ^ 16 + size) (omega arith))

module _ (aead : Aead) (nonce : List ℕ) (teatype extra : ℕ) (ub : PacketBuf)
    (sized : ub.dat.idxdatsz < 2 ^ 16) (small : teatype < 32) (short : extra < 2 ^ 11) where
  seal-word :
      (seal aead nonce teatype extra ub).dat.idxdatsz
      ≡ teatype * 2 ^ 27 + (extra * 2 ^ 16 + ub.dat.idxdatsz)
  unfolding seal tea additional
  seal-word = fields ub.dat.idxdatsz teatype extra sized small short

  -- Sealing leaves its additional data in the header.
  pub additional_data-seal : additional_data (seal aead nonce teatype extra ub).dat ≡ extra
  unfolding additional_data
  additional_data-seal =
      let word = seal-word in
      let high : (seal aead nonce teatype extra ub).dat.idxdatsz / 2 ^ 16
          ≡ teatype * 2 ^ 11 + extra =
        omega arith in
      ap (λ (x : ℕ). bit_and x 0x07ff) high
      ∙ omega (arith, bit_and_mask 11 (teatype * 2 ^ 11 + extra))

  -- And its key index.
  pub cipher_index-seal : cipher_index (seal aead nonce teatype extra ub).dat ≡ teatype
  unfolding cipher_index
  cipher_index-seal = let word = seal-word in omega arith
