-- ===== src/Head/Unbox/Overflow.antt =====
-- The offset test of ParsePacketHeader adds in 16 bits, so a sum past 2 ^ 16 wraps.
use wire_gold.Common.{
  length, replicate, length-replicate, bit_and_mask, ℕ, ◌+◌, ◌^◌, ◌≤◌, ◌<◌, ◌≡◌, ap, ◌∙◌, ◌≢◌, Bool,
  true, false, none, List, [], ◌++◌, arith,
}
use wire_gold.Head.Flags.{is_valid, has_more}
use wire_gold.Head.Packet.{Packet, PacketBuf, size}
use wire_gold.Head.Unbox.{ok, bad_offset, parse_packet_header, write_data_segment}
use wire_gold.Head.Unbox.Read.{IsPacket, IsDigest, crc_of, header_bytes}
use wire_gold.Head.Unbox.Accept.{parsed, parse_opens, opens_partial}
use wire_gold.Head.Unbox.Segment.{waiting, write_outside}

module _ (md5 : List ℕ → List ℕ) (little : Bool) (fresh : PacketBuf) (p : Packet) (body : List ℕ)
    (digest : IsDigest md5) (v : IsPacket p) (valid : is_valid p.proto ≡ true)
    (nonempty : 0 < length body) (empty : fresh.buffer ≡ []) (more : has_more p.proto ≡ true)
    (short : length body < 2 ^ 16) (partial : length body ≢ size p) (outside : size p < p.offset)
    (wraps : 2 ^ 16 ≤ p.offset + length body)
    (wrapped : p.offset + length body ≤ 2 ^ 16 + size p) where
  fits_wrapped :
      bad_offset (parsed md5 little fresh p body digest v valid nonempty) (32 + length body) ≡ false
  unfolding bad_offset size
  fits_wrapped = rw more (ground (arith, bit_and_mask 16 p.idxdatsz, v.offset_fits))

  -- A fragment whose fields fit, with a valid protocol and a body that is neither empty nor of the
  -- declared size, whose offset is past that size, at least one, but whose end wraps around to
  -- within it, is accepted, and writing it into the packet that it opened stops the program. MD5
  -- gives bytes, and the buffer from the pool is empty.
  pub wrapped_fragment_panics :
      0 < size p
      → (pb : PacketBuf) × (parse_packet_header little md5 fresh (header_bytes md5 p ++ body)
          ≡ ok pb)
        × (write_data_segment pb.dat (header_bytes md5 p ++ body) pb.buffer ≡ none)
  wrapped_fragment_panics sized = (
    record { dat = waiting p p.offset (crc_of md5 p) (size p); buffer = replicate (size p) 0 },
    parse_opens md5 little fresh p body digest v valid nonempty fits_wrapped
        ∙ ap ok (opens_partial md5 little fresh p body digest v valid nonempty empty partial),
    write_outside md5 p p.offset body digest v p.offset (crc_of md5 p) (size p)
        (replicate (size p) 0) sized (omega (arith, length-replicate {A = ℕ} (size p) 0)),
  )
