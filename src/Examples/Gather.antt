-- ===== src/Examples/Gather.antt =====
-- The datagrams of a packet of three fragments, the second coming first.
use wire_gold.Common.{
  All, put_uint, get_uint, ℕ, ◌%◌, ◌^◌, ◌≡◌, refl, true, false, none, some, List, [], ◌∷◌, arith,
}
use mathlib.Core.List.{Permᴰ}
use wire_gold.Algo.Xor.{encode_xor}
use wire_gold.Head.Packet.{PacketBuf, clear_ttl}
use wire_gold.Head.Header.{write_header_to, memory_image, md5_hash8, written_image}
use wire_gold.Head.Builder.Split.{build_packet_from_bytes}
use wire_gold.Head.Builder.Split.Fit.{fragmented}
use wire_gold.Head.Reassembly.Complete.{completed}
use wire_gold.Link.Router.{default_net, is_to_me}
use wire_gold.Link.Dispatch.{Peer, is_in_peer, ip_number}
use wire_gold.Link.Send.{Outlet, Draws, Codecs, split_and_send, drawn_mtu, randseq}
use wire_gold.Link.Recv.{Host}
use wire_gold.Link.Recv.Gather.{Parcel, wait_all, last_arrives, AreNew, IsKnown}
use wire_gold.Link.Recv.Gather.Sent.{
  wait_all-split_and_send, sent_parcels, datagrams, receiver, IsSending, IsCodec, BuildsBytes,
}
use wire_gold.Examples.Cases.{
  toy_md5, toy_md5-IsDigest, data_packet, empty_buf, long_buf, long_buf-IsReady, subslice,
  subslice-IsSlice,
}
use wire_gold.Examples.Fragments.{one, two, three, split_long}
use wire_gold.Examples.Network.{are_bytes_sound}

abbrev codecs : Codecs
codecs = record {
  little = false;
  md5 = toy_md5;
  blake = λ bytes. bytes;
  encode_zstd = λ bytes. bytes;
  slice = subslice;
  fresh = empty_buf;
}

abbrev uplink : Outlet
uplink = record {
  peerip = data_packet.dst;
  endpoint = some 8;
  keys = λ n. none;
  usezstd = false;
  doublepacket = false;
  mtu = 57;
  mturandomrange = 0;
  sendcount = 8;
  me_ip = data_packet.src;
  srcport = 1;
  dstport = 2;
  mask = 4660;
  b14 = none;
  conn = true;
}

abbrev draws : Draws
draws = record {
  key_index = 0;
  mtu_cut = 0;
  randn = 77;
  nonce = [];
  seq_high = λ i. i % 2 ^ 16;
  mask_bytes = λ i. 9 ∷ 8 ∷ 7 ∷ 6 ∷ [];
}

uplink-IsSending : IsSending uplink draws 8
uplink-IsSending = record {
  once = refl;
  known = refl;
  opened = refl;
  mask_fits = omega arith;
  high_fits = λ i. omega arith;
  four = λ i. refl;
  drawn = λ i. (omega arith, (omega arith, (omega arith, (omega arith, tt))));
}

none-IsCodec : IsCodec none none
none-IsCodec = record { agrees = λ bytes. refl; longer = λ bytes. omega arith }

fragments-BuildsBytes : All (BuildsBytes codecs) (one ∷ two ∷ three ∷ [])
unfolding build_packet_from_bytes write_header_to memory_image md5_hash8 written_image put_uint
    get_uint clear_ttl
fragments-BuildsBytes = (
  are_bytes_sound (build_packet_from_bytes false toy_md5 one) refl,
  (
    are_bytes_sound (build_packet_from_bytes false toy_md5 two) refl,
    (are_bytes_sound (build_packet_from_bytes false toy_md5 three) refl, tt),
  ),
)

abbrev sent : List PacketBuf → ℕ → List Parcel
sent = sent_parcels codecs uplink draws 9 (λ i. 5) (λ i. 100)

abbrev first_parcel : Parcel
first_parcel = record {
  addr = 5;
  now = 100;
  bytes =
      encode_xor (9 ∷ 8 ∷ 7 ∷ 6 ∷ []) (build_packet_from_bytes false toy_md5 one) 4660
        (randseq 0 9);
  seq = randseq 0 9;
  part = one;
}

abbrev second_parcel : Parcel
second_parcel = record {
  addr = 5;
  now = 100;
  bytes =
      encode_xor (9 ∷ 8 ∷ 7 ∷ 6 ∷ []) (build_packet_from_bytes false toy_md5 two) 4660
        (randseq 1 9);
  seq = randseq 1 9;
  part = two;
}

abbrev parcels : List Parcel
parcels = second_parcel ∷ first_parcel ∷ sent (three ∷ []) 2

abbrev friend : Peer
friend = record {
  keys = λ i. none;
  allowedips = [];
  usezstd = false;
  allowtrans = false;
  endpoint = none;
  lastalive = 0;
}

abbrev home : Host
home = record {
  host = record {
    me = ip_number data_packet.dst;
    subnet = record { base = 167772160; len = 24 };
    connections = (data_packet.src, friend) ∷ [];
  };
  router = record { table = λ n. none; list = default_net ∷ [] };
  cache = λ ip. none;
  recving = [];
  recved = [];
}

parcels-AreNew : AreNew toy_md5 [] parcels
unfolding md5_hash8 get_uint clear_ttl memory_image put_uint randseq
parcels-AreNew = (refl, (refl, (refl, tt)))

home-IsKnown : IsKnown data_packet home
unfolding is_in_peer is_to_me
home-IsKnown = ((friend, refl), refl)

wait_all-split_and_send_example :
    (split_and_send codecs uplink draws 9 (some long_buf)
      ≡ some (datagrams 8 (sent (one ∷ two ∷ three ∷ []) 0)))
    × (wait_all (receiver none true codecs uplink empty_buf) parcels home
        ≡ last_arrives
            (record { dat = completed toy_md5 (fragmented long_buf).dat; buffer = long_buf.buffer })
            parcels)
unfolding drawn_mtu
wait_all-split_and_send_example =
    wait_all-split_and_send codecs uplink draws 9 8 uplink-IsSending (omega arith) (λ i. 5)
      (λ i. 100) none none-IsCodec true empty_buf long_buf (one ∷ two ∷ three ∷ []) parcels home
      toy_md5-IsDigest refl subslice-IsSlice long_buf-IsReady (omega arith) (omega arith) split_long
      fragments-BuildsBytes (Permᴰ.swap refl refl) parcels-AreNew home-IsKnown tt
