-- ===== src/Head/Reassembly/Order.antt =====
-- What does not depend on the order in which the pieces of a body arrive.
use mathlib.Core.List.{Permᴰ}
use mathlib.Core.Path.{subst}
use wire_gold.Common.{
  ◌==◌, if◌then◌else◌, ==_iff, Bool-cases, length, Some, All, ℕ, ◌+◌, ◌≡◌, refl, ap, ap₂, ◌∙◌, ◌⊎◌,
  inl, inr, true, false, List, [], ◌∷◌, arith,
}
use wire_gold.Head.Packet.{Packet}
use wire_gold.Head.Unbox.Read.{crc_of}
use wire_gold.Head.Unbox.Segment.{at_offset}
use wire_gold.Head.Reassembly.Paste.{Piece}
use wire_gold.Head.Reassembly.Count.{total, offset_after, crc_after}

-- What holds of pieces in one order holds of them in every order.
pub total-perm : {qs rs : List Piece} → Permᴰ qs rs → total qs ≡ total rs
unfolding total
total-perm Permᴰ.nil = refl
total-perm (Permᴰ.cons e p) = ap₂ ◌+◌ (ap (λ (q : Piece). length q.1) e) (total-perm p)
total-perm (Permᴰ.swap e f) =
    omega (arith, ap (λ (q : Piece). length q.1) e, ap (λ (q : Piece). length q.1) f)
total-perm (Permᴰ.trans p q) = total-perm p ∙ total-perm q

pub All-perm {ℓ} :
    {A : Type ℓ} (P : A → Type 0) {qs rs : List A} → Permᴰ qs rs → All P qs → All P rs
All-perm P Permᴰ.nil h = h
All-perm P (Permᴰ.cons e p) h = (subst P e h.0, All-perm P p h.1)
All-perm P (Permᴰ.swap e f) h = (subst P f h.1.0, (subst P e h.0, h.1.1))
All-perm P (Permᴰ.trans p q) h = All-perm P q (All-perm P p h)

pub Some-perm {ℓ} :
    {A : Type ℓ} (P : A → Type 0) {qs rs : List A} → Permᴰ qs rs → Some P qs → Some P rs
Some-perm P Permᴰ.nil h = h
Some-perm P (Permᴰ.cons e p) (inl h) = inl (subst P e h)
Some-perm P (Permᴰ.cons e p) (inr h) = inr (Some-perm P p h)
Some-perm P (Permᴰ.swap e f) (inl h) = inr (inl (subst P e h))
Some-perm P (Permᴰ.swap e f) (inr (inl h)) = inl (subst P f h)
Some-perm P (Permᴰ.swap e f) (inr (inr h)) = inr (inr h)
Some-perm P (Permᴰ.trans p q) h = Some-perm P q (Some-perm P p h)

-- After the piece at offset 0 the packet keeps that offset and that piece's checksum.
abbrev pub IsFirst : Piece → Type 0
IsFirst q = q.0 ≡ 0

module _ (md5 : List ℕ → List ℕ) (base : Packet) where
  pub settled :
      (qs : List Piece) (o crc : ℕ)
      → Some IsFirst qs ⊎ ((o ≡ 0) × (crc ≡ crc_of md5 (at_offset base 0)))
      → (offset_after o qs ≡ 0) × (crc_after md5 base crc qs ≡ crc_of md5 (at_offset base 0))
  unfolding offset_after crc_after
  settled [] o crc (inl h) = absurd h
  settled [] o crc (inr h) = h
  settled (q ∷ qs) o crc h =
      settled qs (if q.0 == 0 then 0 else o)
        (if q.0 == 0 then crc_of md5 (at_offset base q.0) else crc) (sort (Bool-cases (q.0 == 0)) h)
    where
      sort :
          ((q.0 == 0) ≡ true) ⊎ ((q.0 == 0) ≡ false)
          → Some IsFirst (q ∷ qs) ⊎ ((o ≡ 0) × (crc ≡ crc_of md5 (at_offset base 0)))
          → Some IsFirst qs
            ⊎ (((if q.0 == 0 then 0 else o) ≡ 0)
                × ((if q.0 == 0 then crc_of md5 (at_offset base q.0) else crc)
                    ≡ crc_of md5 (at_offset base 0)))
      sort (inl e) g =
          inr (rw e (refl, ap (λ (t : ℕ). crc_of md5 (at_offset base t)) ((==_iff q.0 0).0 e)))
      sort (inr e) (inl (inl z)) = absurd (ground arith)
      sort (inr e) (inl (inr s)) = inl s
      sort (inr e) (inr k) = inr (rw e k)
