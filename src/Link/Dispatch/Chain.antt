-- ===== src/Link/Dispatch/Chain.antt =====
-- From the sender's builder to the receiver's handler.
use wire_gold.Common.{
  if◌then◌else◌, length, put_uint, ℕ, ◌^◌, ◌<◌, ◌≡◌, refl, sym, ap, ap₂, ◌∙◌, Bool, true, false,
  Option, some, List, ◌++◌, arith,
}
use wire_gold.Common.Int.{to_uint64, to_int64, to_uint64-to_int64}
use wire_gold.Algo.Seal.{Aead, encode_aead}
use wire_gold.Algo.Hash.{blake2b_hash8, blake2b_hash8-lt, IsBlake}
use wire_gold.Head.Flags.{proto}
use wire_gold.Head.Packet.{PacketBuf, additional_data}
use wire_gold.Head.Header.{pre_crc64, memory_image, written_image}
use wire_gold.Head.Builder.{hash, seal, plain}
use wire_gold.Head.Builder.Key.{additional_data-seal, cipher_index-seal}
use wire_gold.Link.Router.{accept, is_to_me}
use wire_gold.Link.Dispatch.{Peer, Me, handled, ip_number, dispatch_from}
use wire_gold.Link.Dispatch.Open.{sealed_body, dispatch_from-sealed_body}

-- The checksum under the hash does not read what sealing sets.
pub pre_crc64-sealed :
    (little : Bool) (md5 blake : List ℕ → List ℕ) (aead : Aead) (nonce : List ℕ) (teatype extra : ℕ)
    (ub : PacketBuf)
    → pre_crc64 little md5 (seal aead nonce teatype extra (hash blake ub)).dat
      ≡ pre_crc64 little md5 ub.dat
unfolding pre_crc64 memory_image written_image seal hash put_uint
pre_crc64-sealed true md5 blake aead nonce teatype extra ub = refl
pre_crc64-sealed false md5 blake aead nonce teatype extra ub = refl

pub seal-sealed_body :
    (little : Bool) (md5 blake : List ℕ → List ℕ) (aead : Aead) (nonce : List ℕ) (teatype extra : ℕ)
    (ub : PacketBuf)
    → IsBlake blake
    → ub.dat.md5h8 ≡ pre_crc64 little md5 ub.dat
    → additional_data (seal aead nonce teatype extra (hash blake ub)).dat ≡ extra
    → (seal aead nonce teatype extra (hash blake ub)).buffer
      ≡ sealed_body little md5 blake aead nonce
          (seal aead nonce teatype extra (hash blake ub)).dat
          ub.buffer
unfolding seal hash
seal-sealed_body little md5 blake aead nonce teatype extra ub is_blake stamped kept =
    let same = pre_crc64-sealed little md5 blake aead nonce teatype extra ub in
    let word : to_uint64 (to_int64 (blake2b_hash8 blake ub.dat.md5h8 ub.buffer))
        ≡ blake2b_hash8 blake
            (pre_crc64 little md5 (seal aead nonce teatype extra (hash blake ub)).dat) ub.buffer =
      to_uint64-to_int64 (blake2b_hash8 blake ub.dat.md5h8 ub.buffer)
        (blake2b_hash8-lt blake ub.dat.md5h8 ub.buffer is_blake)
      ∙ ap (λ (crc : ℕ). blake2b_hash8 blake crc ub.buffer) (stamped ∙ sym same) in
    ap₂ (λ (x y : ℕ). encode_aead aead nonce x (put_uint 8 y ++ ub.buffer)) (sym kept) word

-- A packet that the builder hashes and seals, its checksum being the one that With sets, reaches
-- the handler of its protocol with exactly the body that was sealed, decompressed where the link
-- compresses: the header gives the key index and the additional data that were sealed with. The
-- word of the header had only the size, the index is below 32 and the additional data below 2^11,
-- the link has its first key and that one, the nonce has the size of the cipher, the cipher adds a
-- tag, BLAKE2b gives 32 bytes, the address is allowed, the destination is this interface and the
-- protocol is registered.
pub dispatch_from-seal :
    (little : Bool) (md5 blake : List ℕ → List ℕ) (unzstd : List ℕ → Option (List ℕ))
    (registered : ℕ → Bool) (m : Me) (l : Peer) (first aead : Aead) (nonce : List ℕ)
    (teatype extra : ℕ) (ub : PacketBuf) (plain : List ℕ)
    → IsBlake blake
    → ub.dat.md5h8 ≡ pre_crc64 little md5 ub.dat
    → ub.dat.idxdatsz < 2 ^ 16
    → extra < 2 ^ 11
    → l.keys 0 ≡ some first
    → l.keys teatype ≡ some aead
    → teatype < 32
    → length nonce ≡ aead.nonce_size
    → 0 < aead.overhead
    → accept l.allowedips (ip_number ub.dat.src) ≡ true
    → is_to_me m.me m.subnet (ip_number ub.dat.dst) ≡ true
    → (if l.usezstd then unzstd ub.buffer else some ub.buffer) ≡ some plain
    → registered (proto ub.dat.proto) ≡ true
    → dispatch_from little md5 blake unzstd registered m
        (seal aead nonce teatype extra (hash blake ub)).dat
        (seal aead nonce teatype extra (hash blake ub)).buffer
        (some l)
      ≡ handled (proto ub.dat.proto) plain
unfolding seal hash
dispatch_from-seal little md5 blake unzstd registered m l first aead nonce teatype extra ub plain
      is_blake stamped unkeyed short k0 kt small sized tagged allowed mine unpacked known =
    let sent = seal aead nonce teatype extra (hash blake ub) in
    let kept = additional_data-seal aead nonce teatype extra (hash blake ub) unkeyed small short in
    let index = cipher_index-seal aead nonce teatype extra (hash blake ub) unkeyed small short in
    ap
      (λ (body : List ℕ). dispatch_from little md5 blake unzstd registered m sent.dat body (some l))
      (seal-sealed_body little md5 blake aead nonce teatype extra ub is_blake stamped kept)
    ∙ dispatch_from-sealed_body little md5 blake unzstd registered m l first aead nonce sent.dat
        ub.buffer plain is_blake k0 (ap l.keys index ∙ kt) (omega (arith, index)) sized tagged
        allowed mine unpacked known
