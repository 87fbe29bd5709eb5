-- ===== src/Head/Reassembly.antt =====
-- Datagrams of one packet, written one after the other into the packet that the first one opened:
-- the calls that Me.wait in gold/link/recv.go makes of ParsePacketHeader and WriteDataSegment.
pub mod Paste
pub mod Count
pub mod Order
pub mod Fragments
pub mod Complete
pub mod AnyOrder
use wire_gold.Common.{
  ltb, leb, ◌==◌, if◌then◌else◌, ltb→lt, lt→ltb, leb→le, le→ltb, lt→leb, le→leb, ==_iff, ==_refl,
  Bool-cases, Option-cases, all_below, all_below_sound, length, get_elem?, get_or, set, take, drop,
  replicate, All, length-append, length-take, length-drop, length-replicate, take-append-drop,
  take-append, drop-append, take-all, drop-all, drop-nil, drop-drop, take-add, All-append, All-take,
  All-drop, get_or-append_last, take_front, All-weaken, bit_or_step, bit_or-zero, bit_and-zero,
  bit_or_fields, bit_and_mask, bit_xor_cancel, bit_xor_comm, bit_or_assoc, bit_xor-lt, IsByte,
  AreBytes, put_uint, get_uint, length-put_uint, put_uint-AreBytes, get_uint-put_uint, get_uint-lt,
  put_uint-get_uint, get_uint-append, get_uint-take, ℕ, zero, suc, ◌+◌, ◌-◌, ◌*◌, ◌/◌, ◌%◌, ◌^◌,
  ◌≤◌, ◌<◌, min, bit_and, bit_or, bit_xor, ◌≡◌, refl, sym, ap, ap₂, ◌∙◌, ◌≢◌, ◌↔◌, ◌⊎◌, inl, inr,
  Bool, true, false, not, ◌&&◌, ◌||◌, Option, none, some, List, [], ◌∷◌, ◌++◌, append_assoc,
  append-nil, arith, pow-suc, dec_lt, ℕ_discrete,
}
use wire_gold.Head.Packet.{Packet, PacketBuf, has_finished}
use wire_gold.Head.Unbox.{Result, ok, err, parse_packet_header, write_data_segment}

-- The segments that arrive; the flag is what the last write said. `none` is a panic.
unfoldable pub write_all : Bool → Packet → List ℕ → List (List ℕ) → Option (Bool × Packet × List ℕ)
write_all complete p buf [] = some (complete, p, buf)
write_all complete p buf (w ∷ ws) = elim (write_data_segment p w buf) [
  | none ↦ none
  | some (complete', p', buf') ↦ write_all complete' p' buf' ws
]

-- The first datagram opens the packet, and is written into it like the others.
unfoldable pub reassemble :
    Bool → (List ℕ → List ℕ) → PacketBuf → List (List ℕ) → Option (Bool × Packet × List ℕ)
reassemble little md5 fresh [] = none
reassemble little md5 fresh (w ∷ ws) = elim (parse_packet_header little md5 fresh w) [
  | err e ↦ none
  | ok pb ↦ write_all false pb.dat pb.buffer (w ∷ ws)
]
