-- ===== src/P2p/Pdu.antt =====
-- gold/p2p/tcp/pdu.go: how packets are framed on a TCP stream, which is a list of bytes here.
pub mod Framing
use wire_gold.Common.{
  ltb, leb, ◌==◌, if◌then◌else◌, ltb→lt, lt→ltb, leb→le, le→ltb, lt→leb, le→leb, ==_iff, ==_refl,
  Bool-cases, Option-cases, all_below, all_below_sound, length, get_elem?, get_or, set, take, drop,
  replicate, Some, All, length-append, length-take, length-drop, length-replicate, take-append-drop,
  take-append, drop-append, take-all, drop-all, drop-nil, drop-drop, take-add, All-append, All-take,
  All-drop, get_or-append_last, take_front, All-weaken, bit_or_step, bit_and-zero, bit_or-zero,
  bit_and_mask, bit_or_fields, bit_xor_cancel, bit_xor_comm, bit_or_assoc, bit_xor-lt, IsByte,
  AreBytes, put_uint, get_uint, length-put_uint, put_uint-AreBytes, get_uint-put_uint, get_uint-lt,
  put_uint-get_uint, get_uint-append, get_uint-take, get_or_ext, ℕ, zero, suc, ◌+◌, ◌-◌, ◌*◌, ◌/◌,
  ◌%◌, ◌^◌, ◌≤◌, ◌<◌, min, bit_and, bit_or, bit_xor, ◌≡◌, refl, sym, ap, ap₂, ◌∙◌, ◌≢◌, ◌↔◌, ◌⊎◌,
  inl, inr, Bool, true, false, not, ◌&&◌, ◌||◌, Option, none, some, List, [], ◌∷◌, ◌++◌,
  append_assoc, append-nil, arith, pow-suc, dec_lt, ℕ_discrete,
}

-- packet: its type, length and data.
pub record Pdu : Type 0 where
  pub typ : ℕ
  pub len : ℕ
  pub dat : List ℕ

-- "GET "
abbrev pub magicbuf : List ℕ
magicbuf = 71 ∷ 69 ∷ 84 ∷ 32 ∷ []

abbrev pub packet_type_keep_alive : ℕ
packet_type_keep_alive = 0

abbrev pub packet_type_normal : ℕ
packet_type_normal = 1

abbrev pub packet_type_sub_keep_alive : ℕ
packet_type_sub_keep_alive = 2

unfoldable pub pack : Pdu → List ℕ
pack p = magicbuf ++ ((p.typ ∷ put_uint 2 p.len) ++ p.dat)

-- io.EOF at the start of a field, io.ErrUnexpectedEOF within the magic or the head.
pub data ReadError : Type 0 where
  eof unexpected_eof invalid_magic : ReadError

-- What ReadFrom makes of the stream: the packet and what follows it, or the error; with the count
-- of the bytes that were read.
pub data ReadResult : Type 0 where
  got : Pdu → List ℕ → ReadResult
  failed : ReadError → ReadResult

-- io.ReadFull for a missing field.
abbrev pub short_read : List ℕ → ReadError
short_read [] = eof
short_read (b ∷ bs) = unexpected_eof

unfoldable pub read_data : ℕ → ℕ → List ℕ → ℕ × ReadResult
read_data typ len bytes =
    if ltb (length bytes) len
    then (7 + length bytes, failed eof)
    else (7 + len, got (record { typ = typ; len = len; dat = take len bytes }) (drop len bytes))

unfoldable pub read_head : List ℕ → ℕ × ReadResult
read_head bytes =
    if ltb (length bytes) 3
    then (4 + length bytes, failed (short_read bytes))
    else read_data (get_or bytes 0 0) (get_uint 2 (take 2 (drop 1 bytes))) (drop 3 bytes)

unfoldable pub read_from : List ℕ → ℕ × ReadResult
read_from bytes =
    if ltb (length bytes) 4
    then (length bytes, failed (short_read bytes))
    else if not (get_uint 4 (take 4 bytes) == get_uint 4 magicbuf)
    then (4, failed invalid_magic)
    else read_head (drop 4 bytes)

-- isvalid, for the first packet of a connection, when it comes within the timeout: whether it is a
-- connection of a pool, and whether it is accepted.
unfoldable pub is_valid_hello : ReadResult → Bool × Bool
is_valid_hello (failed e) = (false, false)
is_valid_hello (got p rest) =
    if not (p.typ == packet_type_keep_alive) && not (p.typ == packet_type_sub_keep_alive)
    then (false, false)
    else (p.typ == packet_type_sub_keep_alive, true)
