-- ===== src/Link/Dispatch/Open.antt =====
-- What reaches a handler.
use wire_gold.Common.{
  ◌==◌, if◌then◌else◌, le→ltb, lt→leb, length, length-append, drop-append, put_uint,
  length-put_uint, ℕ, ◌+◌, ◌<◌, ◌≡◌, refl, ap, ◌∙◌, Bool, true, false, Option, none, some, List,
  ◌++◌, arith,
}
use wire_gold.Algo.Seal.{
  Aead, ok, encode_aead, length-encode_aead, decode_aead, decode_aead-encode_aead,
}
use wire_gold.Algo.Hash.{blake2b_hash8, is_valid-blake2b_hash8, IsBlake}
use wire_gold.Head.Flags.{proto}
use wire_gold.Head.Header.{pre_crc64}
use wire_gold.Head.Packet.{Packet, additional_data, cipher_index}
use wire_gold.Link.Router.{accept, is_to_me}
use wire_gold.Link.Dispatch.{
  Peer, Me, handled, ip_number, decode, call_handler, deliver, dispatch_from,
}

-- The body that a sender with the same key makes: the hash and the contents, sealed.
abbrev pub sealed_body :
    Bool → (List ℕ → List ℕ) → (List ℕ → List ℕ) → Aead → List ℕ → Packet → List ℕ → List ℕ
sealed_body little md5 blake aead nonce header bytes =
    encode_aead aead nonce (additional_data header)
      (put_uint 8 (blake2b_hash8 blake (pre_crc64 little md5 header) bytes) ++ bytes)

pub decode-keyed :
    (l : Peer) (first aead : Aead) (teatype extra : ℕ) (b : List ℕ)
    → l.keys 0 ≡ some first
    → l.keys teatype ≡ some aead
    → teatype < 32
    → 0 < length b
    → decode l teatype extra b ≡ some (decode_aead aead extra b)
unfolding decode
decode-keyed l first aead teatype extra b k0 kt small full =
    let some_bytes : length b == 0 ≡ false = ground arith in
    rw (some_bytes, lt→leb 32 teatype small)
      (ap
          (λ o. elim o [
            | none ↦ some (ok b)
            | some first ↦ elim (l.keys teatype) [
              | none ↦ none
              | some key ↦ some (decode_aead key extra b)
            ]
          ])
          k0
        ∙ ap (λ o. elim o [ none ↦ none | some key ↦ some (decode_aead key extra b) ]) kt)

deliver-valid :
    (little : Bool) (md5 blake : List ℕ → List ℕ) (unzstd : List ℕ → Option (List ℕ))
    (registered : ℕ → Bool) (l : Peer) (header : Packet) (bytes plain : List ℕ)
    → IsBlake blake
    → (if l.usezstd then unzstd bytes else some bytes) ≡ some plain
    → registered (proto header.proto) ≡ true
    → deliver little md5 blake unzstd registered l header
        (some (ok (put_uint 8 (blake2b_hash8 blake (pre_crc64 little md5 header) bytes) ++ bytes)))
      ≡ handled (proto header.proto) plain
unfolding deliver
deliver-valid little md5 blake unzstd registered l header bytes plain is_blake unpacked known =
    let word = put_uint 8 (blake2b_hash8 blake (pre_crc64 little md5 header) bytes) in
    let len : length (word ++ bytes) ≡ 8 + length bytes = omega (
      arith,
      length-append word bytes,
      length-put_uint 8 (blake2b_hash8 blake (pre_crc64 little md5 header) bytes),
    ) in
    rw
      (
        le→ltb (length (word ++ bytes)) 8 (omega arith),
        is_valid-blake2b_hash8 blake (pre_crc64 little md5 header) bytes is_blake,
        drop-append 8 word bytes
            (length-put_uint 8 (blake2b_hash8 blake (pre_crc64 little md5 header) bytes)),
      )
      (ap (call_handler registered (proto header.proto)) unpacked ∙ registered_call)
  where
    registered_call :
        call_handler registered (proto header.proto) (some plain)
        ≡ handled (proto header.proto) plain
    registered_call = rw known refl

-- A body that a peer seals, behind its hash, with the key of the index in the header reaches the
-- handler of its protocol with exactly the data, decompressed where the link compresses. The link
-- has its first key and that one, the index is below 32, the nonce has the size of the cipher, the
-- cipher adds a tag, BLAKE2b gives 32 bytes, the address is allowed, the destination is this
-- interface and the protocol is registered.
pub dispatch_from-sealed_body :
    (little : Bool) (md5 blake : List ℕ → List ℕ) (unzstd : List ℕ → Option (List ℕ))
    (registered : ℕ → Bool) (m : Me) (l : Peer) (first aead : Aead) (nonce : List ℕ)
    (header : Packet) (bytes plain : List ℕ)
    → IsBlake blake
    → l.keys 0 ≡ some first
    → l.keys (cipher_index header) ≡ some aead
    → cipher_index header < 32
    → length nonce ≡ aead.nonce_size
    → 0 < aead.overhead
    → accept l.allowedips (ip_number header.src) ≡ true
    → is_to_me m.me m.subnet (ip_number header.dst) ≡ true
    → (if l.usezstd then unzstd bytes else some bytes) ≡ some plain
    → registered (proto header.proto) ≡ true
    → dispatch_from little md5 blake unzstd registered m header
        (sealed_body little md5 blake aead nonce header bytes)
        (some l)
      ≡ handled (proto header.proto) plain
unfolding dispatch_from
dispatch_from-sealed_body little md5 blake unzstd registered m l first aead nonce header bytes plain
      is_blake k0 kt small sized tagged allowed mine unpacked known =
    let body = put_uint 8 (blake2b_hash8 blake (pre_crc64 little md5 header) bytes) ++ bytes in
    let extra = additional_data header in
    let len = length-encode_aead aead nonce extra body in
    rw
      (
        allowed,
        mine,
        decode-keyed l first aead (cipher_index header) extra (encode_aead aead nonce extra body) k0
            kt small (omega (arith, len)),
        decode_aead-encode_aead aead nonce extra body sized tagged,
      )
      (deliver-valid little md5 blake unzstd registered l header bytes plain is_blake unpacked
        known)
