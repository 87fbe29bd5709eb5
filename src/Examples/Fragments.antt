-- ===== src/Examples/Fragments.antt =====
-- A body of 40 bytes split at an mtu of 57, and put together again.
use mathlib.Core.List.{map}
use mathlib.Core.List.Perm
use wire_gold.Common.{
  replicate, All, ℕ, ◌≤◌, ◌<◌, ◌≡◌, refl, true, false, some, List, [], ◌∷◌, arith,
}
use wire_gold.Algo.Xor.{encode_xor_len}
use wire_gold.Head.Packet.{PacketBuf}
use wire_gold.Head.Builder.{datasize, set_no_frag, set_has_more, set_offset}
use wire_gold.Head.Builder.Split.{parts, cut, fragment_count, split, build_packet_from_bytes}
use wire_gold.Head.Builder.Split.Cover.{bodies}
use wire_gold.Head.Builder.Split.Fit.{
  split_covers, split_fits, split_exceeds, datagram_len, fragmented,
}
use wire_gold.Head.Reassembly.{reassemble}
use wire_gold.Head.Reassembly.Complete.{completed}
use wire_gold.Head.Reassembly.AnyOrder.{reassemble-split}
use wire_gold.Examples.Cases.{
  toy_md5, toy_md5-IsDigest, empty_buf, long_buf, long_buf-IsReady, subslice, subslice-IsSlice,
}

split_covers_example :
    (pbs : List PacketBuf) × (split subslice 57 false long_buf ≡ parts pbs)
    × (bodies pbs ≡ long_buf.buffer)
    × All (λ pb. datagram_len pb ≤ 64) pbs
split_covers_example = split_covers subslice subslice-IsSlice 57 long_buf (omega arith)

split_fits_example :
    (pbs : List PacketBuf) × (split subslice 56 false long_buf ≡ parts pbs)
    × All (λ pb. datagram_len pb ≤ 56) pbs
split_fits_example = split_fits subslice subslice-IsSlice 56 long_buf (omega arith) (omega arith)

split_exceeds_example :
    (pb : PacketBuf) × (pbs : List PacketBuf) × (split subslice 57 false long_buf
      ≡ parts (pb ∷ pbs))
    × (57 < datagram_len pb)
unfolding encode_xor_len
split_exceeds_example =
    split_exceeds subslice subslice-IsSlice 57 long_buf (omega arith) (omega arith) (omega arith)
      (omega arith)

abbrev cut_at : ℕ → List ℕ → PacketBuf
cut_at o bytes = record {
  dat = record long_buf.dat { idxdatsz = 40; proto = 35; offset = o };
  buffer = bytes;
}

abbrev pub one : PacketBuf
one = cut_at 0 (1 ∷ 2 ∷ 3 ∷ 4 ∷ replicate 12 5)

abbrev pub two : PacketBuf
two = cut_at 16 (replicate 16 5)

abbrev pub three : PacketBuf
three = cut_at 32 (replicate 8 5)

pub split_long : split subslice 57 false long_buf ≡ parts (one ∷ two ∷ three ∷ [])
unfolding encode_xor_len split cut fragment_count datasize set_no_frag set_has_more set_offset
split_long = refl

-- The second fragment arrives first.
reassemble-split_example :
    reassemble true toy_md5 empty_buf
      (map (build_packet_from_bytes false toy_md5) (two ∷ one ∷ three ∷ []))
    ≡ some (true, completed toy_md5 (fragmented long_buf).dat, long_buf.buffer)
reassemble-split_example =
    reassemble-split subslice subslice-IsSlice toy_md5 toy_md5-IsDigest false true empty_buf
      long_buf refl long_buf-IsReady 57 (omega arith) (omega arith) (one ∷ two ∷ three ∷ [])
      (two ∷ one ∷ three ∷ []) split_long (Perm.swap two one (three ∷ []))
