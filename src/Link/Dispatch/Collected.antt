-- ===== src/Link/Dispatch/Collected.antt =====
-- From the sender's builder, over Split and the collecting of the parts, to the receiver's handler.
use wire_gold.Common.{
  if◌then◌else◌, length, drop, bit_and_mask, put_uint, ℕ, ◌+◌, ◌^◌, ◌<◌, bit_and, ◌≡◌, sym, ap, ap₂,
  ◌∙◌, Bool, true, false, Option, some, List, ◌++◌, arith,
}
use wire_gold.Algo.Seal.{Aead, encode_aead}
use wire_gold.Algo.Hash.{IsBlake, blake2b_hash8}
use wire_gold.Head.Flags.{proto, protobit}
use wire_gold.Head.Packet.{PacketBuf, cipher_index, additional_data}
use wire_gold.Head.Header.{pre_crc64, memory_image, written_image, md5_hash8}
use wire_gold.Head.Builder.{hash, seal, datasize, set_has_more, set_no_frag, plain}
use wire_gold.Head.Builder.Key.{additional_data-seal, cipher_index-seal}
use wire_gold.Head.Builder.Split.Fit.{fragmented}
use wire_gold.Head.Builder.Split.Ready.{IsReady, sized, fragment_proto}
use wire_gold.Head.Reassembly.Complete.{completed}
use wire_gold.Link.Router.{accept, is_to_me}
use wire_gold.Link.Dispatch.{Peer, Me, handled, ip_number, dispatch_from}
use wire_gold.Link.Dispatch.Open.{sealed_body, dispatch_from-sealed_body}
use wire_gold.Link.Dispatch.Chain.{seal-sealed_body}
use wire_gold.Common.{put_uint, ◌++◌}

module _ (md5 : List ℕ → List ℕ) (s : PacketBuf) (r : IsReady s) where
  -- Behind Split and the collecting, the header differs in the size, the flags and the hash only.
  word : (completed md5 (fragmented s).dat).idxdatsz ≡ s.dat.idxdatsz + length s.buffer
  unfolding fragmented set_has_more set_no_frag
  word = sized s r

  low_flags : bit_and (fragmented s).dat.proto protobit ≡ bit_and s.dat.proto protobit
  low_flags =
      ap (λ (pf : ℕ). bit_and pf protobit) (fragment_proto s r)
      ∙ omega (arith, bit_and_mask 5 (s.dat.proto + 32), bit_and_mask 5 s.dat.proto)

  pre_crc64-completed :
      (little : Bool)
      → pre_crc64 little md5 (completed md5 (fragmented s).dat) ≡ pre_crc64 little md5 s.dat
  unfolding pre_crc64 memory_image written_image put_uint fragmented datasize set_has_more
      set_no_frag
  pre_crc64-completed true =
      ap₂
        (λ (pf o : ℕ).
          md5_hash8 md5 (drop 4 (memory_image (record s.dat { ttl = 0; proto = pf; offset = o }))))
        low_flags (sym r.at_zero)
  pre_crc64-completed false =
      ap₂ (λ (pf o : ℕ). md5_hash8 md5 (drop 4 (written_image (record s.dat { offset = o }) pf)))
        low_flags (sym r.at_zero)

  additional_data-completed :
      additional_data (completed md5 (fragmented s).dat) ≡ additional_data s.dat
  unfolding additional_data
  additional_data-completed =
      let w = word in ap (λ (x : ℕ). bit_and x 0x07ff) (omega (arith, r.unsized, r.short))

  cipher_index-completed : cipher_index (completed md5 (fragmented s).dat) ≡ cipher_index s.dat
  unfolding cipher_index
  cipher_index-completed = let w = word in omega (arith, r.unsized, r.short)

-- A packet that the builder hashes and seals, and that comes whole behind Split, reaches the handler
-- of its protocol as if it had not been split.
pub dispatch_from-collected :
    (little : Bool) (md5 blake : List ℕ → List ℕ) (unzstd : List ℕ → Option (List ℕ))
    (registered : ℕ → Bool) (m : Me) (l : Peer) (first aead : Aead) (nonce : List ℕ)
    (teatype extra : ℕ) (ub : PacketBuf) (plain : List ℕ)
    → IsReady (seal aead nonce teatype extra (hash blake ub))
    → IsBlake blake
    → ub.dat.md5h8 ≡ pre_crc64 little md5 ub.dat
    → ub.dat.idxdatsz < 2 ^ 16
    → extra < 2 ^ 11
    → l.keys 0 ≡ some first
    → l.keys teatype ≡ some aead
    → teatype < 32
    → length nonce ≡ aead.nonce_size
    → 0 < aead.overhead
    → accept l.allowedips (ip_number ub.dat.src) ≡ true
    → is_to_me m.me m.subnet (ip_number ub.dat.dst) ≡ true
    → (if l.usezstd then unzstd ub.buffer else some ub.buffer) ≡ some plain
    → registered (proto ub.dat.proto) ≡ true
    → dispatch_from little md5 blake unzstd registered m
        (completed md5 (fragmented (seal aead nonce teatype extra (hash blake ub))).dat)
        (seal aead nonce teatype extra (hash blake ub)).buffer
        (some l)
      ≡ handled (proto ub.dat.proto) plain
unfolding seal hash fragmented datasize set_has_more set_no_frag proto
dispatch_from-collected little md5 blake unzstd registered m l first aead nonce teatype extra ub
      plain r is_blake stamped unkeyed short k0 kt small sized tagged allowed mine unpacked known =
    let sent = seal aead nonce teatype extra (hash blake ub) in
    let header = completed md5 (fragmented sent).dat in
    let sent_extra =
      additional_data-seal aead nonce teatype extra (hash blake ub) unkeyed small short in
    let index : cipher_index header ≡ teatype =
      cipher_index-completed md5 sent r
      ∙ cipher_index-seal aead nonce teatype extra (hash blake ub) unkeyed small short in
    let body : sent.buffer ≡ sealed_body little md5 blake aead nonce header ub.buffer =
      seal-sealed_body little md5 blake aead nonce teatype extra ub is_blake stamped sent_extra
      ∙ ap₂ (sealed_with blake aead nonce ub.buffer) (sym (additional_data-completed md5 sent r))
          (sym (pre_crc64-completed md5 sent r little)) in
    let low : proto header.proto ≡ proto ub.dat.proto = low_flags md5 sent r in
    ap
      (λ (bytes : List ℕ). dispatch_from little md5 blake unzstd registered m header bytes (some l))
      body
    ∙ dispatch_from-sealed_body little md5 blake unzstd registered m l first aead nonce header
        ub.buffer plain is_blake k0 (ap l.keys index ∙ kt) (omega (arith, index)) sized tagged
        allowed mine unpacked (ap registered low ∙ known)
    ∙ ap (λ (pr : ℕ). handled pr plain) low
  where
    sealed_with : (List ℕ → List ℕ) → Aead → List ℕ → List ℕ → ℕ → ℕ → List ℕ
    sealed_with blake aead nonce bytes added crc =
        encode_aead aead nonce added (put_uint 8 (blake2b_hash8 blake crc bytes) ++ bytes)
