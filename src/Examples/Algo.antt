-- ===== src/Examples/Algo.antt =====
-- The codecs at concrete inputs.
use wire_gold.Common.{
  length, replicate, AreBytes, ℕ, ◌+◌, ◌*◌, ◌%◌, ◌≤◌, ◌≡◌, refl, some, List, [], ◌∷◌, arith,
}
use wire_gold.Algo.Xor.{encode_xor, decode_xor}
use wire_gold.Algo.Xor.RoundTrip.{decode_xor-encode_xor}
use wire_gold.Algo.Xor.Reject.{decode_xor-length}
use wire_gold.Algo.Key.Mix.{mix_keys_injective}
use wire_gold.Algo.Key.{expandkeyunit, reverse8, mix_loop, mix_keys}
use wire_gold.Algo.Key.Interleave.{expandkeyunit_interleaves, spread}
use wire_gold.Examples.Cases.{AreBytes-replicate}

abbrev message : List ℕ
message = 104 ∷ 101 ∷ 108 ∷ 108 ∷ 111 ∷ []

abbrev drawn : List ℕ
drawn = 1 ∷ 2 ∷ 3 ∷ 4 ∷ []

drawn-AreBytes : AreBytes drawn
drawn-AreBytes = (omega arith, (omega arith, (omega arith, (omega arith, tt))))

message-AreBytes : AreBytes message
message-AreBytes = (omega arith, (omega arith, (omega arith, (omega arith, (omega arith, tt)))))

decode_xor-encode_xor_example :
    decode_xor (encode_xor drawn message 12345 99) 12345 ≡ (99, some message)
decode_xor-encode_xor_example =
    decode_xor-encode_xor drawn message 12345 99 refl drawn-AreBytes message-AreBytes (omega arith)
      (omega arith)

decode_xor-length_example :
    (16 ≤ length (encode_xor drawn message 12345 99))
    × (length (encode_xor drawn message 12345 99) % 8 ≡ 0)
    × (length (encode_xor drawn message 12345 99) ≤ 5 + 16)
    × (5 + 9 ≤ length (encode_xor drawn message 12345 99))
decode_xor-length_example = decode_xor-length (encode_xor drawn message 12345 99) 12345 99 message (
    decode_xor-encode_xor drawn message 12345 99 refl drawn-AreBytes message-AreBytes (omega arith)
      (omega arith))

expandkeyunit_interleaves_example : expandkeyunit 201 7 ≡ spread 8 201 + 2 * spread 8 (reverse8 7)
expandkeyunit_interleaves_example = expandkeyunit_interleaves 201 7 (omega arith) (omega arith)

abbrev first_key : List ℕ
first_key = replicate 32 201

abbrev second_key : List ℕ
second_key = replicate 32 7

abbrev mixed_keys : List ℕ
mixed_keys = mix_loop first_key 0 second_key

mixes : mix_keys first_key second_key ≡ some mixed_keys
unfolding mix_keys
mixes = refl

mix_keys_injective_example : (first_key ≡ first_key) × (second_key ≡ second_key)
mix_keys_injective_example =
    mix_keys_injective first_key second_key first_key second_key mixed_keys
      (AreBytes-replicate 32 201 (omega arith)) (AreBytes-replicate 32 7 (omega arith))
      (AreBytes-replicate 32 201 (omega arith)) (AreBytes-replicate 32 7 (omega arith)) mixes mixes
