-- ===== src/P2p/Pdu/Framing.antt =====
-- Packets written one after another are read back one by one.
use wire_gold.Common.{
  le→ltb, length, length-append, take-append, drop-append, put_uint, get_uint, ℕ, suc, ◌+◌, ◌*◌,
  ◌/◌, ◌%◌, ◌^◌, ◌<◌, ◌≡◌, refl, sym, ap, ◌∙◌, List, ◌∷◌, ◌++◌, arith,
}
use wire_gold.P2p.Pdu.{Pdu, pack, got, read_data, read_head, read_from}

read_data-packet :
    (p : Pdu) (rest : List ℕ)
    → p.len ≡ length p.dat
    → read_data p.typ p.len (p.dat ++ rest) ≡ (7 + p.len, got p rest)
unfolding read_data
read_data-packet p rest sized =
    let size = length-append p.dat rest in
    rw
      (
        le→ltb (length (p.dat ++ rest)) p.len (omega arith),
        take-append p.len p.dat rest (sym sized),
        drop-append p.len p.dat rest (sym sized),
      )
      refl

read_head-packet :
    (typ len : ℕ) (bytes : List ℕ)
    → len < 2 ^ 16
    → read_head (typ ∷ (put_uint 2 len ++ bytes)) ≡ read_data typ len bytes
unfolding read_head put_uint get_uint
read_head-packet typ len bytes fits =
    let word : len % 256 + 256 * (len / 256 % 256 + 256 * 0) ≡ len = omega arith in
    rw (le→ltb (suc (suc (suc (length bytes)))) 3 (omega arith))
      (ap (λ (n : ℕ). read_data typ n bytes) word)

-- ReadFrom on a packet with anything behind it reads exactly that packet, when its length is that
-- of its data and fits 16 bits.
pub read_from-pack :
    (p : Pdu) (rest : List ℕ)
    → p.len ≡ length p.dat
    → p.len < 2 ^ 16
    → read_from (pack p ++ rest) ≡ (7 + p.len, got p rest)
unfolding read_from pack get_uint put_uint
read_from-pack p rest sized fits =
    let body = p.typ ∷ (put_uint 2 p.len ++ (p.dat ++ rest)) in
    rw (le→ltb (suc (suc (suc (suc (length body))))) 4 (omega arith))
      (read_head-packet p.typ p.len (p.dat ++ rest) fits ∙ read_data-packet p rest sized)
