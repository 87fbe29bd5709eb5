-- ===== src/Examples/Head.antt =====
-- Headers, masks and the splitting of a body at concrete inputs.
use wire_gold.Common.{replicate, ℕ, ◌≡◌, refl, true, false, none, List, [], ◌∷◌, ◌++◌, arith}
use wire_gold.Common.Int.{pos, negsuc}
use wire_gold.Head.Flags.{is_valid, has_more}
use wire_gold.Head.Packet.{Packet, PacketBuf, size, dec_ttl}
use wire_gold.Head.Header.{write_header_to}
use wire_gold.Head.Header.Endian.{write_header_to-endian}
use wire_gold.Head.Unbox.{ok, parse_packet_header, write_data_segment}
use wire_gold.Head.Unbox.Read.{header_bytes, crc_of}
use wire_gold.Head.Unbox.Accept.{parse_whole, parse_fragment}
use wire_gold.Head.Unbox.Ttl.{parse-dec_ttl, with_ttl}
use wire_gold.Head.Unbox.Overflow.{wrapped_fragment_panics}
use wire_gold.Examples.Cases.{
  toy_md5, toy_md5-IsDigest, data_packet, data_packet-IsPacket, empty_buf, AreBytes-replicate,
}

abbrev contents : List ℕ
contents = 1 ∷ 2 ∷ 3 ∷ []

-- A packet of three bytes, sent whole.
abbrev whole : Packet
whole = record data_packet { idxdatsz = 3 }

-- The same bytes as a part of eight, at offset 4.
abbrev part : Packet
part = record data_packet { idxdatsz = 8; proto = 35; offset = 4 }

-- A fragment of a packet of two bytes whose end wraps around to 1.
abbrev wild : Packet
wild = record data_packet { idxdatsz = 2; proto = 35; offset = 65534 }

valid_whole : is_valid 3 ≡ true
unfolding is_valid
valid_whole = refl

valid_part : is_valid 35 ≡ true
unfolding is_valid
valid_part = refl

single : has_more 3 ≡ false
unfolding has_more
single = refl

more : has_more 35 ≡ true
unfolding has_more
more = refl

size_whole : size whole ≡ 3
unfolding size
size_whole = refl

size_part : size part ≡ 8
unfolding size
size_part = refl

size_wild : size wild ≡ 2
unfolding size
size_wild = refl

write_header_to-endian_example :
    write_header_to false toy_md5 whole [] ≡ write_header_to true toy_md5 whole []
write_header_to-endian_example = write_header_to-endian toy_md5 whole (omega arith) (omega arith)

parse_whole_example :
    parse_packet_header true toy_md5 empty_buf (header_bytes toy_md5 whole ++ contents)
    ≡ ok (record {
      dat = record whole { md5h8 = crc_of toy_md5 whole; hashrem = negsuc 0 };
      buffer = contents;
    })
parse_whole_example =
    parse_whole toy_md5 true empty_buf whole contents toy_md5-IsDigest
      (data_packet-IsPacket 3 3 0 (omega arith) (omega arith) (omega arith)) valid_whole
      (omega arith) refl single refl size_whole

parse_fragment_example :
    parse_packet_header true toy_md5 empty_buf (header_bytes toy_md5 part ++ contents)
    ≡ ok (record {
      dat = record part { md5h8 = crc_of toy_md5 part; hashrem = pos (size part) };
      buffer = replicate (size part) 0;
    })
parse_fragment_example =
    parse_fragment toy_md5 true empty_buf part contents toy_md5-IsDigest
      (data_packet-IsPacket 8 35 4 (omega arith) (omega arith) (omega arith)) valid_part
      (omega arith) refl more (omega (arith, size_part)) (omega (arith, size_part))

wrapped_fragment_panics_example :
    (pb : PacketBuf) × (parse_packet_header true toy_md5 empty_buf
        (header_bytes toy_md5 wild ++ contents)
      ≡ ok pb)
    × (write_data_segment pb.dat (header_bytes toy_md5 wild ++ contents) pb.buffer ≡ none)
wrapped_fragment_panics_example =
    wrapped_fragment_panics toy_md5 true empty_buf wild contents toy_md5-IsDigest
      (data_packet-IsPacket 2 35 65534 (omega arith) (omega arith) (omega arith)) valid_part
      (omega arith) refl more (omega arith) (omega (arith, size_wild)) (omega (arith, size_wild))
      (omega arith) (omega (arith, size_wild)) (omega (arith, size_wild))

abbrev datagram : List ℕ
datagram = replicate 40 1

parse-dec_ttl_example :
    parse_packet_header true toy_md5 empty_buf (dec_ttl datagram).1
    ≡ with_ttl 0 (parse_packet_header true toy_md5 empty_buf datagram)
parse-dec_ttl_example =
    parse-dec_ttl true toy_md5 empty_buf datagram (AreBytes-replicate 40 1 (omega arith))
      (omega arith)
