-- ===== src/Head/Unbox/Accept.antt =====
-- What ParsePacketHeader makes of a packet that WriteHeaderTo wrote.
use wire_gold.Common.{
  ◌==◌, lt→leb, ==_iff, ==_refl, length, replicate, length-append, drop-append, bit_and_mask, ℕ,
  ◌+◌, ◌^◌, ◌≤◌, ◌<◌, bit_and, ◌≡◌, refl, ap, ◌∙◌, ◌≢◌, Bool, true, false, List, [], ◌++◌, arith,
}
use wire_gold.Common.Int.{pos, negsuc}
use wire_gold.Head.Flags.{is_valid, has_more}
use wire_gold.Head.Packet.{Packet, PacketBuf, size}
use wire_gold.Head.Unbox.{ok, bad_offset, open_body, parse_packet_header}
use wire_gold.Head.Unbox.Read.{
  IsPacket, IsDigest, crc_of, header_bytes, length-header_bytes, read_packet-header_bytes,
  header_crc-header_bytes,
}

module _ (md5 : List ℕ → List ℕ) (little : Bool) (fresh : PacketBuf) (p : Packet) (body : List ℕ)
    (digest : IsDigest md5) (v : IsPacket p) (valid : is_valid p.proto ≡ true)
    (nonempty : 0 < length body) where
  -- The packet as the parser has it before it opens the body.
  abbrev pub parsed : Packet
  parsed = record p { md5h8 = crc_of md5 p; hashrem = fresh.dat.hashrem }

  length-wire : length (header_bytes md5 p ++ body) ≡ 32 + length body
  length-wire = omega (arith, length-append (header_bytes md5 p) body, length-header_bytes md5 p v)

  pub parse_opens :
      bad_offset parsed (32 + length body) ≡ false
      → parse_packet_header little md5 fresh (header_bytes md5 p ++ body)
        ≡ ok (open_body fresh parsed (header_bytes md5 p ++ body))
  unfolding parse_packet_header
  parse_opens fits =
      rw
        (
          read_packet-header_bytes md5 fresh.dat p body digest v little,
          header_crc-header_bytes md5 fresh.dat p body digest v,
          lt→leb (length (header_bytes md5 p ++ body)) 32 (omega (arith, length-wire)),
          valid,
          ap (bad_offset parsed) length-wire ∙ fits,
          ==_refl (crc_of md5 p),
        )
        refl

  size-lt : size p < 2 ^ 16
  unfolding size
  size-lt = omega (arith, bit_and_mask 16 p.idxdatsz)

  opens_whole :
      fresh.buffer ≡ []
      → size p ≡ length body
      → open_body fresh parsed (header_bytes md5 p ++ body)
        ≡ record { dat = record p { md5h8 = crc_of md5 p; hashrem = negsuc 0 }; buffer = body }
  unfolding open_body size
  opens_whole empty sized =
      rw
        (
          (==_iff (bit_and p.idxdatsz 0xffff + 32) (length (header_bytes md5 p ++ body))).1
              (omega (arith, length-wire)),
          empty,
          drop-append 32 (header_bytes md5 p) body (length-header_bytes md5 p v),
        )
        refl

  pub opens_partial :
      fresh.buffer ≡ []
      → length body ≢ size p
      → open_body fresh parsed (header_bytes md5 p ++ body) ≡ record {
        dat = record p { md5h8 = crc_of md5 p; hashrem = pos (size p) };
        buffer = replicate (size p) 0;
      }
  unfolding open_body size
  opens_partial empty partial = rw (other, empty) refl
    where
      other : (bit_and p.idxdatsz 0xffff + 32 == length (header_bytes md5 p ++ body)) ≡ false
      other = ground (arith, length-wire)

  fits_whole :
      has_more p.proto ≡ false
      → p.offset ≡ 0
      → size p ≡ length body
      → bad_offset parsed (32 + length body) ≡ false
  unfolding bad_offset size
  fits_whole single zero_offset sized = rw (single) (ground arith)

  fits_fragment :
      has_more p.proto ≡ true
      → p.offset + length body ≤ size p
      → bad_offset parsed (32 + length body) ≡ false
  unfolding bad_offset size
  fits_fragment more within = rw (more) (ground (arith, size-lt))

  -- A packet whose fields fit, with a valid protocol and a body that is not empty, sent whole at
  -- offset 0 with its size declared, is accepted into an empty buffer with its body and is
  -- complete. MD5 gives bytes.
  pub parse_whole :
      fresh.buffer ≡ []
      → has_more p.proto ≡ false
      → p.offset ≡ 0
      → size p ≡ length body
      → parse_packet_header little md5 fresh (header_bytes md5 p ++ body)
        ≡ ok (record { dat = record p { md5h8 = crc_of md5 p; hashrem = negsuc 0 }; buffer = body })
  parse_whole empty single zero_offset sized =
      parse_opens (fits_whole single zero_offset sized) ∙ ap ok (opens_whole empty sized)

  -- A fragment whose fields fit, with a valid protocol, that is not empty and lies within the
  -- declared size and is not of that size itself, is accepted, and the packet has a buffer of that
  -- size, all zeros, and that size to wait for. MD5 gives bytes, and the buffer from the pool is
  -- empty.
  pub parse_fragment :
      fresh.buffer ≡ []
      → has_more p.proto ≡ true
      → p.offset + length body ≤ size p
      → length body ≢ size p
      → parse_packet_header little md5 fresh (header_bytes md5 p ++ body)
        ≡ ok (record {
          dat = record p { md5h8 = crc_of md5 p; hashrem = pos (size p) };
          buffer = replicate (size p) 0;
        })
  parse_fragment empty more within partial =
      parse_opens (fits_fragment more within) ∙ ap ok (opens_partial empty partial)
