-- ===== src/Examples/Cases.antt =====
-- Inputs that the examples share: parameters instantiated by small functions, and packets.
use wire_gold.Common.{
  length, get_or, take, drop, replicate, AreBytes, ℕ, zero, suc, ◌-◌, ◌%◌, ◌^◌, ◌<◌, refl, none,
  some, List, [], ◌∷◌, arith,
}
use wire_gold.Common.Int.{negsuc}
use wire_gold.Algo.Seal.{Aead}
use wire_gold.Algo.Hash.{IsBlake}
use wire_gold.Head.Packet.{Packet, PacketBuf}
use wire_gold.Head.Unbox.Read.{IsPacket, IsDigest}
use wire_gold.Head.Builder.Split.Cover.{IsSlice}
use wire_gold.Head.Builder.Split.Ready.{IsReady}

pub AreBytes-replicate : (n b : ℕ) → b < 256 → AreBytes (replicate n b)
AreBytes-replicate zero b h = tt
AreBytes-replicate (suc n) b h = (h, AreBytes-replicate n b h)

-- A digest of the first byte and the length.
abbrev pub toy_md5 : List ℕ → List ℕ
toy_md5 bytes = (get_or bytes 0 0 % 256) ∷ (length bytes % 256) ∷ replicate 14 7

pub toy_md5-IsDigest : IsDigest toy_md5
toy_md5-IsDigest bytes = (omega arith, (omega arith, AreBytes-replicate 14 7 (omega arith)))

abbrev pub toy_blake : List ℕ → List ℕ
toy_blake bytes = (length bytes % 256) ∷ replicate 31 9

pub toy_blake-IsBlake : IsBlake toy_blake
toy_blake-IsBlake bytes = ((omega arith, AreBytes-replicate 31 9 (omega arith)), refl)

abbrev pub subslice : ℕ → ℕ → List ℕ → List ℕ
subslice a b bytes = take (b - a) (drop a bytes)

pub subslice-IsSlice : IsSlice subslice
subslice-IsSlice a b bytes h k = refl

-- A cipher that puts a tag of one byte in front.
abbrev pub toy_aead : Aead
toy_aead = record {
  nonce_size = 2;
  overhead = 1;
  seal = λ nonce plain extra. 42 ∷ plain;
  unseal = λ nonce cipher extra. elim cipher [ [] ↦ none | tag ∷ plain ↦ some plain ];
  length-seal = λ nonce plain extra. omega arith;
  unseal-seal = λ nonce plain extra h. refl;
}

abbrev pub data_packet : Packet
data_packet = record {
  idxdatsz = 0;
  randn = 77;
  proto = 3;
  ttl = 64;
  src_port = 1;
  dst_port = 2;
  offset = 0;
  src = 10 ∷ 0 ∷ 0 ∷ 1 ∷ [];
  dst = 10 ∷ 0 ∷ 0 ∷ 2 ∷ [];
  md5h8 = 0;
  hashrem = negsuc 0;
}

pub data_packet-IsPacket :
    (idxdatsz proto offset : ℕ)
    → idxdatsz < 2 ^ 32
    → proto < 256
    → offset < 2 ^ 16
    → IsPacket (record data_packet { idxdatsz = idxdatsz; proto = proto; offset = offset })
data_packet-IsPacket idxdatsz proto offset a b c = record {
  idxdatsz_fits = a;
  randn_fits = omega arith;
  proto_fits = b;
  ttl_fits = omega arith;
  src_port_fits = omega arith;
  dst_port_fits = omega arith;
  offset_fits = c;
  src_length = refl;
  dst_length = refl;
}

abbrev pub empty_buf : PacketBuf
empty_buf = record { dat = data_packet; buffer = [] }

-- A body of 40 bytes.
abbrev pub long_buf : PacketBuf
long_buf = record { dat = data_packet; buffer = 1 ∷ 2 ∷ 3 ∷ 4 ∷ replicate 36 5 }

pub long_buf-IsReady : IsReady long_buf
long_buf-IsReady = record {
  packet = data_packet-IsPacket 0 3 0 (omega arith) (omega arith) (omega arith);
  unsized = refl;
  unflagged = omega arith;
  at_zero = refl;
  short = omega arith;
}
