-- ===== src/Link/AddPeer/Keys.antt =====
-- Which keys a link gets, and what that means for the packets that it decodes.
use wire_gold.Common.{
  leb, ◌==◌, lt→ltb, lt→leb, ==_iff, Bool-cases, length, take, drop, ℕ, ◌<◌, ◌≡◌, refl, sym, ap,
  ◌∙◌, inl, inr, false, ◌||◌, Option, none, some, List, [], arith,
}
use wire_gold.Algo.Key.{mix_loop, mix_keys}
use wire_gold.Algo.Seal.{Aead, Result, ok, decode_aead}
use wire_gold.Link.Dispatch.{Peer, decode}
use wire_gold.Link.Dispatch.Open.{decode-keyed}
use wire_gold.Link.AddPeer.{keys_of, window_keys, only_first}

keys_of-both :
    (new_x : List ℕ → Aead) (k p : List ℕ)
    → length k ≡ 32
    → length p ≡ 32
    → keys_of new_x (some k) (some p) ≡ some (window_keys new_x (mix_loop k 0 p))
unfolding keys_of mix_keys
keys_of-both new_x k p hk hp = rw ((==_iff _ _).1 hk, (==_iff _ _).1 hp) refl

keys_of-single :
    (new_x : List ℕ → Aead) (k : List ℕ)
    → length k ≡ 32
    → keys_of new_x (some k) none ≡ some (only_first new_x k)
unfolding keys_of
keys_of-single new_x k hk = rw ((==_iff _ _).1 hk) refl

-- With a shared and a preshared key of 32 bytes each, decoding never stops the program, whatever
-- the key index of the packet.
pub keys_of-decode :
    (new_x : List ℕ → Aead) (k p : List ℕ) (l : Peer) (teatype extra : ℕ) (b : List ℕ)
    → length k ≡ 32
    → length p ≡ 32
    → keys_of new_x (some k) (some p) ≡ some l.keys
    → (r : Result (List ℕ)) × (decode l teatype extra b ≡ some r)
unfolding decode
keys_of-decode new_x k p l teatype extra b hk hp keyed =
    let whole : some (window_keys new_x (mix_loop k 0 p)) ≡ some l.keys =
      sym (keys_of-both new_x k p hk hp) ∙ keyed in
    let keys : window_keys new_x (mix_loop k 0 p) ≡ l.keys = cc in
    elim (Bool-cases (length b == 0 || leb 32 teatype)) [
      | inl skipped ↦ rw skipped (ok [], refl)
      | inr decoded ↦
          let small : teatype < 32 = ground arith in
          let full : 0 < length b = ground arith in
          let mixed = mix_loop k 0 p in
          let first : l.keys 0 ≡ some (new_x (take 32 (drop 0 mixed))) =
            ap (λ (f : ℕ → Option Aead). f 0) (sym keys) in
          let chosen : l.keys teatype ≡ some (new_x (take 32 (drop teatype mixed))) =
            ap (λ (f : ℕ → Option Aead). f teatype) (sym keys)
            ∙ rw (lt→ltb teatype 32 small) refl in
          (
            decode_aead (new_x (take 32 (drop teatype mixed))) extra b,
            decode-keyed l (new_x (take 32 (drop 0 mixed))) (new_x (take 32 (drop teatype mixed)))
                teatype extra b first chosen small full,
          )
    ]

-- With a shared key of 32 bytes only, a packet with a key index from 1 to 31 and a body that is
-- not empty stops the program.
pub single_key_panics :
    (new_x : List ℕ → Aead) (k : List ℕ) (l : Peer) (teatype extra : ℕ) (b : List ℕ)
    → length k ≡ 32
    → keys_of new_x (some k) none ≡ some l.keys
    → 0 < teatype
    → teatype < 32
    → 0 < length b
    → decode l teatype extra b ≡ none
unfolding decode
single_key_panics new_x k l teatype extra b hk keyed first small full =
    let whole : some (only_first new_x k) ≡ some l.keys = sym (keys_of-single new_x k hk) ∙ keyed in
    let keys : only_first new_x k ≡ l.keys = cc in
    let some_bytes : length b == 0 ≡ false = ground arith in
    let later : teatype == 0 ≡ false = ground arith in
    let present : l.keys 0 ≡ some (new_x k) = ap (λ (f : ℕ → Option Aead). f 0) (sym keys) in
    let missing : l.keys teatype ≡ none =
      ap (λ (f : ℕ → Option Aead). f teatype) (sym keys) ∙ rw later refl in
    rw (some_bytes, lt→leb 32 teatype small)
      (ap
          (λ o. elim o [
            | none ↦ some (ok b)
            | some first ↦ elim (l.keys teatype) [
              | none ↦ none
              | some key ↦ some (decode_aead key extra b)
            ]
          ])
          present
        ∙ ap (λ o. elim o [ none ↦ none | some key ↦ some (decode_aead key extra b) ]) missing)
