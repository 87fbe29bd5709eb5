-- ===== src/Head/Unbox/Read.antt =====
-- Reading back the header that WriteHeaderTo wrote.
use wire_gold.Common.{
  length, take, drop, length-append, take-append, drop-append, drop-drop, All-take, IsByte,
  AreBytes, put_uint, get_uint, length-put_uint, get_uint-put_uint, get_uint-lt, ℕ, ◌^◌, ◌<◌, ◌≡◌,
  refl, sym, ap, ◌∙◌, Bool, true, false, List, [], ◌∷◌, ◌++◌, append_assoc, arith,
}
use wire_gold.Head.Packet.{Packet, clear_ttl}
use wire_gold.Head.Header.{md5_hash8, memory_image, write_header_to}
use wire_gold.Head.Unbox.{read_packet, header_crc}

-- The fields have the widths of the struct.
pub record IsPacket (p : Packet) : Type 0 where
  pub idxdatsz_fits : p.idxdatsz < 2 ^ 32
  pub randn_fits : p.randn < 2 ^ 32
  pub proto_fits : p.proto < 256
  pub ttl_fits : p.ttl < 256
  pub src_port_fits : p.src_port < 2 ^ 16
  pub dst_port_fits : p.dst_port < 2 ^ 16
  pub offset_fits : p.offset < 2 ^ 16
  pub src_length : length p.src ≡ 4
  pub dst_length : length p.dst ≡ 4

-- crypto/md5.Sum returns sixteen bytes.
abbrev pub IsDigest : (List ℕ → List ℕ) → Type 0
IsDigest md5 = (bytes : List ℕ) → AreBytes (md5 bytes)

Packet-ext :
    {p q : Packet}
    → p.idxdatsz ≡ q.idxdatsz
    → p.randn ≡ q.randn
    → p.proto ≡ q.proto
    → p.ttl ≡ q.ttl
    → p.src_port ≡ q.src_port
    → p.dst_port ≡ q.dst_port
    → p.offset ≡ q.offset
    → p.src ≡ q.src
    → p.dst ≡ q.dst
    → p.md5h8 ≡ q.md5h8
    → p.hashrem ≡ q.hashrem
    → p ≡ q
Packet-ext a b c d e f g h k l m i = record {
  idxdatsz = a i;
  randn = b i;
  proto = c i;
  ttl = d i;
  src_port = e i;
  dst_port = f i;
  offset = g i;
  src = h i;
  dst = k i;
  md5h8 = l i;
  hashrem = m i;
}

unfoldable pub header_bytes : (List ℕ → List ℕ) → Packet → List ℕ
header_bytes md5 p = (write_header_to true md5 p []).1

abbrev pub crc_of : (List ℕ → List ℕ) → Packet → ℕ
crc_of md5 p = md5_hash8 md5 (clear_ttl (memory_image p))

md5_hash8-lt :
    (md5 : List ℕ → List ℕ) (bytes : List ℕ) → IsDigest md5 → md5_hash8 md5 bytes < 2 ^ 64
unfolding md5_hash8
md5_hash8-lt md5 bytes h =
    get_uint-lt 8 (take 8 (md5 bytes)) (All-take IsByte 8 (md5 bytes) (h bytes))

pub length-memory_image : (p : Packet) → IsPacket p → length (memory_image p) ≡ 24
unfolding memory_image put_uint
length-memory_image p v = omega (arith, length-append p.src p.dst, v.src_length, v.dst_length)

pub length-header_bytes :
    (md5 : List ℕ → List ℕ) (p : Packet) → IsPacket p → length (header_bytes md5 p) ≡ 32
unfolding header_bytes write_header_to
length-header_bytes md5 p v = omega (
  arith,
  length-append (memory_image p) (put_uint 8 (crc_of md5 p)),
  length-put_uint 8 (crc_of md5 p),
  length-memory_image p v,
)

module _ (md5 : List ℕ → List ℕ) (fresh p : Packet) (rest : List ℕ) (digest : IsDigest md5)
    (v : IsPacket p) where
  -- Sixteen bytes of numbers; behind them the addresses, the checksum and the rest.
  front : List ℕ
  front =
      put_uint 4 p.idxdatsz
      ++ (put_uint 4 p.randn
          ++ (p.proto ∷ p.ttl ∷ []
              ++ (put_uint 2 p.src_port ++ (put_uint 2 p.dst_port ++ put_uint 2 p.offset))))

  behind : List ℕ
  behind = p.src ++ (p.dst ++ (put_uint 8 (crc_of md5 p) ++ rest))

  joined : header_bytes md5 p ++ rest ≡ front ++ behind
  unfolding front behind header_bytes write_header_to memory_image put_uint
  joined =
      ap (λ l. front ++ l)
        (append_assoc (p.src ++ p.dst) (put_uint 8 (crc_of md5 p)) rest
          ∙ append_assoc p.src p.dst (put_uint 8 (crc_of md5 p) ++ rest))

  after_src : drop 4 behind ≡ p.dst ++ (put_uint 8 (crc_of md5 p) ++ rest)
  unfolding behind
  after_src = drop-append 4 p.src _ v.src_length

  after_dst : drop 8 behind ≡ put_uint 8 (crc_of md5 p) ++ rest
  after_dst =
      sym (drop-drop 4 4 behind) ∙ ap (drop 4) after_src ∙ drop-append 4 p.dst _ v.dst_length

  src_at : take 4 behind ≡ p.src
  unfolding behind
  src_at = take-append 4 p.src _ v.src_length

  dst_at : take 4 (drop 4 behind) ≡ p.dst
  dst_at = ap (take 4) after_src ∙ take-append 4 p.dst _ v.dst_length

  crc_at : get_uint 8 (drop 8 behind) ≡ crc_of md5 p
  crc_at =
      ap (get_uint 8) after_dst
      ∙ get_uint-put_uint 8 (crc_of md5 p) rest
          (md5_hash8-lt md5 (clear_ttl (memory_image p)) digest)

  fields :
      (little : Bool)
      → read_packet little fresh (front ++ behind)
        ≡ record p { md5h8 = crc_of md5 p; hashrem = fresh.hashrem }
  unfolding read_packet front put_uint get_uint
  fields true =
      Packet-ext (omega (arith, v.idxdatsz_fits)) (omega (arith, v.randn_fits)) refl refl
        (omega (arith, v.src_port_fits)) (omega (arith, v.dst_port_fits))
        (omega (arith, v.offset_fits)) src_at dst_at crc_at refl
  fields false =
      Packet-ext (omega (arith, v.idxdatsz_fits)) (omega (arith, v.randn_fits))
        (omega (arith, v.proto_fits)) (omega (arith, v.ttl_fits, v.proto_fits))
        (omega (arith, v.src_port_fits)) (omega (arith, v.dst_port_fits))
        (omega (arith, v.offset_fits)) src_at dst_at crc_at refl

  -- The parser reads the fields that were written, and the checksum that the writer computed.
  pub read_packet-header_bytes :
      (little : Bool)
      → read_packet little fresh (header_bytes md5 p ++ rest)
        ≡ record p { md5h8 = crc_of md5 p; hashrem = fresh.hashrem }
  read_packet-header_bytes little = rw joined (fields little)

  -- The parser computes the checksum of the same bytes as the writer.
  pub header_crc-header_bytes : header_crc md5 (header_bytes md5 p ++ rest) ≡ crc_of md5 p
  unfolding header_crc header_bytes write_header_to
  header_crc-header_bytes =
      ap (λ (t : List ℕ). md5_hash8 md5 (clear_ttl t))
        (ap (take 24) (append_assoc (memory_image p) (put_uint 8 (crc_of md5 p)) rest)
          ∙ take-append 24 (memory_image p) _ (length-memory_image p v))
