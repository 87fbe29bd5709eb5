-- ===== src/Algo/Seal.antt =====
-- internal/algo/crypto.go: EncodeAEAD and DecodeAEAD. The cipher is an interface of crypto/cipher,
-- and so a record; `nonce` is what rand.Read draws.
use wire_gold.Common.{
  ltb, ◌==◌, if◌then◌else◌, le→ltb, length, take, drop, length-append, take-append, drop-append,
  put_uint, ℕ, ◌+◌, ◌<◌, ◌≡◌, refl, ap, ◌∙◌, false, Option, none, some, List, [], ◌++◌, arith,
}

-- cipher.AEAD: Open undoes Seal under the same nonce and additional data.
pub record Aead : Type 0 where
  pub nonce_size : ℕ
  pub overhead : ℕ
  pub seal : List ℕ → List ℕ → List ℕ → List ℕ
  pub unseal : List ℕ → List ℕ → List ℕ → Option (List ℕ)
  pub length-seal :
      (nonce plain extra : List ℕ) → length (seal nonce plain extra) ≡ length plain + overhead
  pub unseal-seal :
      (nonce plain extra : List ℕ)
      → length nonce ≡ nonce_size
      → unseal nonce (seal nonce plain extra) extra ≡ some plain

pub data Error : Type 0 where
  cipher_text_too_short open_failed : Error

pub data Result {ℓ} (A : Type ℓ) : Type ℓ where
  ok : A → Result A
  err : Error → Result A

unfoldable pub encode_aead : Aead → List ℕ → ℕ → List ℕ → List ℕ
encode_aead aead nonce additional bytes = nonce ++ aead.seal nonce bytes (put_uint 2 additional)

pub length-encode_aead :
    (aead : Aead) (nonce : List ℕ) (additional : ℕ) (bytes : List ℕ)
    → length (encode_aead aead nonce additional bytes)
      ≡ length nonce + (length bytes + aead.overhead)
unfolding encode_aead
length-encode_aead aead nonce additional bytes =
    length-append nonce (aead.seal nonce bytes (put_uint 2 additional))
    ∙ ap (λ (n : ℕ). length nonce + n) (aead.length-seal nonce bytes (put_uint 2 additional))

opened : Option (List ℕ) → Result (List ℕ)
opened none = err open_failed
opened (some bytes) = ok bytes

-- A nil result without an error is the empty list.
unfoldable pub decode_aead : Aead → ℕ → List ℕ → Result (List ℕ)
unfolding opened
decode_aead aead additional bytes =
    let nonce = take aead.nonce_size bytes in
    let ciphertext = drop aead.nonce_size bytes in
    if ltb (length bytes) aead.nonce_size
    then err cipher_text_too_short
    else if length ciphertext == 0
    then ok []
    else opened (aead.unseal nonce ciphertext (put_uint 2 additional))

-- With a nonce of the size of the cipher, a cipher that adds a tag and the same additional data,
-- decoding an encoded message gives the message.
pub decode_aead-encode_aead :
    (aead : Aead) (nonce : List ℕ) (additional : ℕ) (bytes : List ℕ)
    → length nonce ≡ aead.nonce_size
    → 0 < aead.overhead
    → decode_aead aead additional (encode_aead aead nonce additional bytes) ≡ ok bytes
unfolding decode_aead encode_aead
decode_aead-encode_aead aead nonce additional bytes sized tagged =
    let extra = put_uint 2 additional in
    let sealed = aead.seal nonce bytes extra in
    let len : length (nonce ++ sealed) ≡ aead.nonce_size + (length bytes + aead.overhead) =
      omega (arith, length-append nonce sealed, aead.length-seal nonce bytes extra) in
    rw
      (
        le→ltb (length (nonce ++ sealed)) aead.nonce_size (omega arith),
        take-append aead.nonce_size nonce sealed sized,
        drop-append aead.nonce_size nonce sealed sized,
        positive (length sealed) (omega (arith, aead.length-seal nonce bytes extra)),
        aead.unseal-seal nonce bytes extra sized,
      )
      refl
  where
    positive : (n : ℕ) → 0 < n → (n == 0) ≡ false
    positive n h = ground arith
