-- ===== src/Examples/Delivered.antt =====
-- A packet of two fragments, from WritePacket to the handler, the second fragment coming first.
use wire_gold.Common.{ℕ, ◌%◌, ◌^◌, true, false, none, some, List, [], ◌∷◌}
use wire_gold.Common.Int.{pos}
use wire_gold.Algo.Xor.{encode_xor}
use wire_gold.Head.Packet.{PacketBuf}
use wire_gold.Head.Builder.Split.{build_packet_from_bytes}
use wire_gold.Link.Router.{default_net}
use wire_gold.Link.Dispatch.{Peer, ip_number}
use wire_gold.Link.Send.{Outlet, Draws, Codecs, randseq}
use wire_gold.Link.Recv.{Host}
use wire_gold.Link.Recv.Gather.{Parcel}
use wire_gold.Link.Delivered.{sealed}
use wire_gold.Examples.Cases.{toy_md5, toy_blake, toy_aead, data_packet, subslice}

abbrev codecs : Codecs
codecs = record {
  little = false;
  md5 = toy_md5;
  blake = toy_blake;
  encode_zstd = λ bytes. bytes;
  slice = subslice;
  fresh = record { dat = record data_packet { proto = 0 }; buffer = [] };
}

abbrev uplink : Outlet
uplink = record {
  peerip = data_packet.dst;
  endpoint = some 8;
  keys = λ n. some toy_aead;
  usezstd = false;
  doublepacket = false;
  mtu = 49;
  mturandomrange = 0;
  sendcount = 8;
  me_ip = data_packet.src;
  srcport = 1;
  dstport = 2;
  mask = 4660;
  b14 = none;
  conn = true;
}

abbrev draws : Draws
draws = record {
  key_index = 2;
  mtu_cut = 0;
  randn = 77;
  nonce = 4 ∷ 5 ∷ [];
  seq_high = λ i. i % 2 ^ 16;
  mask_bytes = λ i. 9 ∷ 8 ∷ 7 ∷ 6 ∷ [];
}

abbrev packet : PacketBuf
packet = sealed codecs uplink draws toy_aead 3 (1 ∷ 2 ∷ []) 64

abbrev literal : PacketBuf
literal = record {
  dat = record data_packet {
    idxdatsz = 269025280;
    md5h8 = 506381209866540109;
    hashrem = pos 651061555542690058;
  };
  buffer = 4 ∷ 5 ∷ 42 ∷ 10 ∷ 9 ∷ 9 ∷ 9 ∷ 9 ∷ 9 ∷ 9 ∷ 9 ∷ 1 ∷ 2 ∷ [];
}

abbrev cut_at : ℕ → List ℕ → PacketBuf
cut_at o bytes = record {
  dat = record literal.dat { idxdatsz = 269025293; proto = 35; offset = o };
  buffer = bytes;
}

abbrev one : PacketBuf
one = cut_at 0 (4 ∷ 5 ∷ 42 ∷ 10 ∷ 9 ∷ 9 ∷ 9 ∷ 9 ∷ [])

abbrev two : PacketBuf
two = cut_at 8 (9 ∷ 9 ∷ 9 ∷ 1 ∷ 2 ∷ [])

abbrev parcel : ℕ → PacketBuf → Parcel
parcel i pb = record {
  addr = 5;
  now = 100;
  bytes =
      encode_xor (9 ∷ 8 ∷ 7 ∷ 6 ∷ []) (build_packet_from_bytes false toy_md5 pb) 4660 (randseq i 9);
  seq = randseq i 9;
  part = pb;
}

abbrev parcels : List Parcel
parcels = parcel 1 two ∷ parcel 0 one ∷ []

abbrev far_link : Peer
far_link = record {
  keys = λ i. some toy_aead;
  allowedips = (record { base = 167772160; len = 24 }) ∷ [];
  usezstd = false;
  allowtrans = false;
  endpoint = none;
  lastalive = 0;
}

abbrev home : Host
home = record {
  host = record {
    me = ip_number data_packet.dst;
    subnet = record { base = 167772160; len = 24 };
    connections = (data_packet.src, far_link) ∷ [];
  };
  router = record { table = λ n. none; list = default_net ∷ [] };
  cache = λ ip. none;
  recving = [];
  recved = [];
}
