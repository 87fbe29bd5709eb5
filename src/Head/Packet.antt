-- ===== src/Head/Packet.antt =====
-- gold/head/packet.go and gold/head/raw.go: the packet and what is read off its fields.
-- An IP address is the list of its four bytes. `randn` is kept as its 32-bit pattern.
use wire_gold.Common.{◌==◌, get_or, set, ℕ, ◌+◌, ◌/◌, ◌%◌, ◌^◌, bit_and, Bool, not, List}
use wire_gold.Common.Int.{ℤ, is_positive}

pub record Packet : Type 0 where
  pub idxdatsz : ℕ
  pub randn : ℕ
  pub proto : ℕ
  pub ttl : ℕ
  pub src_port : ℕ
  pub dst_port : ℕ
  pub offset : ℕ
  pub src : List ℕ
  pub dst : List ℕ
  pub md5h8 : ℕ
  pub hashrem : ℤ

-- PacketBuf: a packet with the bytes of its buffer.
pub record PacketBuf : Type 0 where
  pub dat : Packet
  pub buffer : List ℕ

-- unsafe.Offsetof of the fields randn, md5h8, hashrem and TTL.
abbrev pub packet_head_pre_crc_idx : ℕ
packet_head_pre_crc_idx = 4

abbrev pub packet_head_no_crc_len : ℕ
packet_head_no_crc_len = 24

abbrev pub packet_head_len : ℕ
packet_head_len = 32

abbrev pub ttloffset : ℕ
ttloffset = 9

unfoldable pub additional_data : Packet → ℕ
additional_data p = bit_and (p.idxdatsz / 2 ^ 16) 0x07ff

unfoldable pub cipher_index : Packet → ℕ
cipher_index p = p.idxdatsz / 2 ^ 27 % 2 ^ 8

unfoldable pub size : Packet → ℕ
size p = bit_and p.idxdatsz 0xffff

unfoldable pub has_finished : Packet → Bool
has_finished p = not (is_positive p.hashrem)

unfoldable pub clear_ttl : List ℕ → List ℕ
clear_ttl bytes = set bytes ttloffset 0

-- The decremented byte wraps, as a uint8 does; the flag says whether to drop the packet.
unfoldable pub dec_ttl : List ℕ → Bool × List ℕ
dec_ttl bytes =
    let ttl = (get_or bytes ttloffset 0 + 255) % 256 in (ttl == 0, set bytes ttloffset ttl)
