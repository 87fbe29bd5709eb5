-- ===== src/Examples/Network.antt =====
-- Datagrams on the network at concrete inputs.
use wire_gold.Common.{
  ltb, leb, ◌==◌, if◌then◌else◌, length, get_or, take, drop, replicate, All, AreBytes, put_uint,
  get_uint, ℕ, zero, suc, ◌+◌, ◌*◌, ◌/◌, ◌≤◌, ◌<◌, ◌≡◌, refl, ap, ◌∙◌, Bool, true, false, ◌&&◌,
  Option, none, some, List, [], ◌∷◌, ◌++◌, arith,
}
use wire_gold.Common.Int.{negsuc}
use wire_gold.Algo.Xor.{encode_xor, decode_xor, encode_xor_len}
use wire_gold.Algo.Xor.RoundTrip.{decode_xor-encode_xor, length-encode_xor}
use wire_gold.Head.Flags.{is_valid, has_more}
use wire_gold.Head.Packet.{Packet, PacketBuf, size, clear_ttl}
use wire_gold.Head.Header.{write_header_to, memory_image, md5_hash8}
use wire_gold.Head.Unbox.{ok, parse_packet_header}
use wire_gold.Head.Unbox.Read.{header_bytes, crc_of}
use wire_gold.Head.Unbox.Accept.{parse_whole}
use wire_gold.Link.Router.{IpNet, default_net}
use wire_gold.Link.Recv.{Host, duplicated, wait, or_nil}
use wire_gold.Link.Recv.Replay.{Arrival, after_all, wait_twice}
use wire_gold.Link.Send.{Outlet, write2peer}
use wire_gold.Link.Send.Masked.{Agrees, IsReadable, write2peer-IsReadable}
use wire_gold.Link.Nic.{WaterUtil, endless, ends, ipv6_length, same_id, skip_ipv6}
use wire_gold.Link.Nic.Eaten.{same_id_hangs}
use wire_gold.Link.Nic.Repeats.{skip_ipv6_repeats}
use wire_gold.Examples.Cases.{
  toy_md5, toy_md5-IsDigest, data_packet, data_packet-IsPacket, empty_buf,
}

abbrev are_bytes : List ℕ → Bool
are_bytes [] = true
are_bytes (b ∷ bs) = ltb b 256 && are_bytes bs

pub are_bytes_sound : (bs : List ℕ) → are_bytes bs ≡ true → AreBytes bs
are_bytes_sound [] h = tt
are_bytes_sound (b ∷ bs) h = (ground arith, are_bytes_sound bs (ground arith))

abbrev short_packet : Packet
short_packet = record data_packet { idxdatsz = 3 }

abbrev plain : List ℕ
plain = header_bytes toy_md5 short_packet ++ (1 ∷ 2 ∷ 3 ∷ [])

abbrev drawn : List ℕ
drawn = 9 ∷ 8 ∷ 7 ∷ 6 ∷ []

abbrev masked : List ℕ
masked = encode_xor drawn plain 4660 7

plain-AreBytes : AreBytes plain
unfolding header_bytes write_header_to memory_image put_uint md5_hash8 clear_ttl get_uint
plain-AreBytes = are_bytes_sound plain refl

long_plain : length plain ≡ 35
unfolding header_bytes write_header_to memory_image put_uint
long_plain = refl

unmask : decode_xor masked 4660 ≡ (7, some plain)
unmask =
    decode_xor-encode_xor drawn plain 4660 7 refl (are_bytes_sound drawn refl) plain-AreBytes
      (omega arith) (omega arith)

long_masked : 40 ≤ length masked
unfolding encode_xor_len
long_masked = omega (arith, length-encode_xor drawn plain 4660 7, long_plain)

valid : is_valid 3 ≡ true
unfolding is_valid
valid = refl

single : has_more 3 ≡ false
unfolding has_more
single = refl

declared : size short_packet ≡ 3
unfolding size
declared = refl

abbrev opened : PacketBuf
opened = record {
  dat = record short_packet { md5h8 = crc_of toy_md5 short_packet; hashrem = negsuc 0 };
  buffer = 1 ∷ 2 ∷ 3 ∷ [];
}

parsed : parse_packet_header true toy_md5 empty_buf (or_nil (decode_xor masked 4660).1) ≡ ok opened
parsed =
    ap (λ (r : ℕ × Option (List ℕ)). parse_packet_header true toy_md5 empty_buf (or_nil r.1)) unmask
    ∙ parse_whole toy_md5 true empty_buf short_packet (1 ∷ 2 ∷ 3 ∷ []) toy_md5-IsDigest
        (data_packet-IsPacket 3 3 0 (omega arith) (omega arith) (omega arith)) valid (omega arith)
        refl single refl declared

abbrev lan : IpNet
lan = record { base = 167772160; len = 24 }

abbrev idle : Host
idle = record {
  host = record { me = 167772162; subnet = lan; connections = [] };
  router = record { table = λ n. none; list = default_net ∷ [] };
  cache = λ ip. none;
  recving = [];
  recved = [];
}

-- A short datagram, and the same data under another number, come in between.
abbrev between : List Arrival
between = (9, 120, 0 ∷ []) ∷ (8, 150, encode_xor drawn plain 4660 8) ∷ []

wait_twice_example :
    (let later =
        after_all none true toy_md5 empty_buf 4660 between
          (wait none true toy_md5 empty_buf 4660 5 100 masked idle).1 in
      wait none true toy_md5 empty_buf 4660 6 200 masked later ≡ (duplicated, later))
wait_twice_example =
    wait_twice none true toy_md5 empty_buf 4660 masked masked opened long_masked refl long_masked
      parsed 5 100 6 200 between idle

abbrev outlet : Outlet
outlet = record {
  peerip = 10 ∷ 0 ∷ 0 ∷ 2 ∷ [];
  endpoint = some 5;
  keys = λ i. none;
  usezstd = false;
  doublepacket = true;
  mtu = 1400;
  mturandomrange = 0;
  sendcount = 0;
  me_ip = 10 ∷ 0 ∷ 0 ∷ 1 ∷ [];
  srcport = 1;
  dstport = 1;
  mask = 4660;
  b14 = none;
  conn = true;
}

agree : Agrees none none
agree bytes = refl

write2peer-IsReadable_example :
    All (IsReadable none 4660 5 7 (1 ∷ 2 ∷ [])) (write2peer outlet drawn drawn (1 ∷ 2 ∷ []) 7)
    × (length (write2peer outlet drawn drawn (1 ∷ 2 ∷ []) 7) ≡ 2)
write2peer-IsReadable_example =
    write2peer-IsReadable outlet none agree (1 ∷ 2 ∷ []) 7 5 (omega arith, (omega arith, tt))
      (omega arith) (omega arith) refl refl drawn drawn refl (are_bytes_sound drawn refl) refl
      (are_bytes_sound drawn refl)

-- The fields at their places in the header; an IPv4 packet has `len` bytes.
abbrev version_is : ℕ → List ℕ → Option Bool
version_is v [] = none
version_is v (b ∷ rest) = some (b / 16 == v)

abbrev within : {A : Type 0} → A → List ℕ → Option A
within field bytes = if leb 20 (length bytes) then some field else none

abbrev fixed : ℕ → WaterUtil
fixed len = record {
  is_ipv4 = version_is 4;
  is_ipv6 = version_is 6;
  total_length = λ bytes. within len bytes;
  identification = λ bytes. within (get_or bytes 4 0 * 256 + get_or bytes 5 0) bytes;
  destination = λ bytes. within (take 4 (drop 16 bytes)) bytes;
}

abbrev frames : List ℕ
frames = replicate 48 69

same_id_hangs_example : same_id (fixed 0) 17733 frames 1000 0 ≡ endless
same_id_hangs_example = same_id_hangs (fixed 0) frames 17733 1000 (omega arith) refl refl

-- An IPv6 packet of 48 bytes, one that declares 60 bytes, and the first bytes of an IPv4 packet.
abbrev mixed : List ℕ
mixed =
    (96 ∷ 0 ∷ 0 ∷ 0 ∷ 0 ∷ 8 ∷ replicate 42 1)
    ++ ((96 ∷ 0 ∷ 0 ∷ 0 ∷ 0 ∷ 20 ∷ replicate 42 1) ++ replicate 24 69)

mixed_sixes : (j : ℕ) → j < 2 → (fixed 24).is_ipv6 (drop (j * ipv6_length mixed) mixed) ≡ some true
mixed_sixes zero lt = refl
mixed_sixes (suc zero) lt = refl
mixed_sixes (suc (suc j)) lt = absurd (omega arith)

skip_ipv6_repeats_example : skip_ipv6 (fixed 24) mixed 9 0 ≡ ends (some (2 * ipv6_length mixed))
skip_ipv6_repeats_example =
    skip_ipv6_repeats (fixed 24) mixed 2 9 mixed_sixes refl (omega arith) (omega arith)
