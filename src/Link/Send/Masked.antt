-- ===== src/Link/Send/Masked.antt =====
-- What write2peer sends can be read by the peer.
use wire_gold.Common.{
  if◌then◌else◌, Bool-cases, length, All, AreBytes, ℕ, ◌^◌, ◌<◌, ◌≡◌, refl, ap, ◌∙◌, inl, inr, true,
  Option, none, some, List, [], ◌∷◌,
}
use wire_gold.Algo.Xor.{encode_xor, decode_xor}
use wire_gold.Algo.Xor.RoundTrip.{decode_xor-encode_xor}
use wire_gold.Link.Recv.{apply_b14}
use wire_gold.Link.Send.{Outlet, packed, write2peer1, write2peer}

-- The receiver's base16384 setting is the sender's, and its decoder undoes the encoder.
abbrev pub Agrees : Option (List ℕ → List ℕ) → Option (List ℕ → Option (List ℕ)) → Type 0
Agrees encode decode = (bytes : List ℕ) → apply_b14 decode (packed encode bytes) ≡ some bytes

-- A datagram for an endpoint in which a receiver with this mask finds the number and the bytes.
abbrev pub IsReadable :
    Option (List ℕ → Option (List ℕ)) → ℕ → ℕ → ℕ → List ℕ → (ℕ × List ℕ) → Type 0
IsReadable decode mask ep seq bytes w =
    (w.0 ≡ ep)
    × ((inner : List ℕ) × (apply_b14 decode w.1 ≡ some inner)
        × (decode_xor inner mask ≡ (seq, some bytes)))

module _ (l : Outlet) (decode : Option (List ℕ → Option (List ℕ))) (agrees : Agrees l.b14 decode)
    (bytes : List ℕ) (seq ep : ℕ) (are_bytes : AreBytes bytes) (mask_fits : l.mask < 2 ^ 64)
    (seq_fits : seq < 2 ^ 32) (known : l.endpoint ≡ some ep) (opened : l.conn ≡ true) where
  pub write2peer1-once :
      (drawn : List ℕ)
      → write2peer1 l drawn bytes seq ≡ (ep, packed l.b14 (encode_xor drawn bytes l.mask seq)) ∷ []
  unfolding write2peer1
  write2peer1-once drawn =
      ap
        (λ e. elim e [
          | none ↦ []
          | some ep ↦
              if l.conn then (ep, packed l.b14 (encode_xor drawn bytes l.mask seq)) ∷ [] else []
        ])
        known
      ∙ rw opened refl

  readable :
      (drawn : List ℕ)
      → length drawn ≡ 4
      → AreBytes drawn
      → IsReadable decode l.mask ep seq bytes (ep, packed l.b14 (encode_xor drawn bytes l.mask seq))
  readable drawn four drawn_bytes = (
    refl,
    (
      encode_xor drawn bytes l.mask seq,
      agrees (encode_xor drawn bytes l.mask seq),
      decode_xor-encode_xor drawn bytes l.mask seq four drawn_bytes are_bytes mask_fits seq_fits,
    ),
  )

  -- To an endpoint that is set, over an open socket, write2peer sends one datagram, or two where
  -- packets are doubled, and in each a peer with the same mask and base16384 setting finds the
  -- sequence number and the bytes. The mask fits 64 bits, the number 32, and four bytes are drawn
  -- for each datagram.
  pub write2peer-IsReadable :
      (first second : List ℕ)
      → length first ≡ 4
      → AreBytes first
      → length second ≡ 4
      → AreBytes second
      → All (IsReadable decode l.mask ep seq bytes) (write2peer l first second bytes seq)
        × (length (write2peer l first second bytes seq) ≡ (if l.doublepacket then 2 else 1))
  unfolding write2peer
  write2peer-IsReadable first second four first_bytes four' second_bytes =
      elim (Bool-cases l.doublepacket) [
        | inl twice ↦
            rw (write2peer1-once first, write2peer1-once second, twice)
              ((readable first four first_bytes, (readable second four' second_bytes, tt)), refl)
        | inr once ↦
            rw (write2peer1-once first, write2peer1-once second, once)
              ((readable second four' second_bytes, tt), refl)
      ]
