-- ===== src/Head/Builder/Split/Ready.antt =====
-- The headers of what Split makes of a builder that is ready for it.
use wire_gold.Common.{
  ◌==◌, all_below, all_below_sound, length, bit_or_fields, bit_and_mask, ℕ, ◌+◌, ◌*◌, ◌/◌, ◌%◌, ◌^◌,
  ◌<◌, bit_and, bit_or, ◌≡◌, refl, ap₂, ◌∙◌, true, false, not, ◌&&◌, arith,
}
use wire_gold.Head.Flags.{is_valid, has_more}
use wire_gold.Head.Packet.{PacketBuf, size}
use wire_gold.Head.Unbox.Read.{IsPacket}
use wire_gold.Head.Unbox.Segment.{at_offset}
use wire_gold.Head.Builder.{datasize, set_no_frag, set_has_more}
use wire_gold.Head.Builder.Split.Fit.{fragmented}

-- The builder before Split: no flag and no size is set yet, the offset is 0, and the body is
-- shorter than the 16 bits of the size field.
pub record IsReady (ub : PacketBuf) : Type 0 where
  pub packet : IsPacket ub.dat
  pub unsized : ub.dat.idxdatsz % 2 ^ 16 ≡ 0
  pub unflagged : ub.dat.proto < 32
  pub at_zero : ub.dat.offset ≡ 0
  pub short : length ub.buffer < 2 ^ 16

flag_table :
    all_below 32 (λ pf.
      (bit_or (bit_and pf 0xbf) 0x20 == pf + 32)
      && (bit_and (bit_and pf 0xbf) 0xdf == pf)
      && is_valid (pf + 32)
      && has_more (pf + 32)
      && is_valid pf
      && not (has_more pf))
    ≡ true
unfolding all_below is_valid has_more
flag_table = refl

pub record Flagged (pf : ℕ) : Type 0 where
  pub more_set : bit_or (bit_and pf 0xbf) 0x20 ≡ pf + 32
  pub more_cleared : bit_and (bit_and pf 0xbf) 0xdf ≡ pf
  pub more_valid : is_valid (pf + 32) ≡ true
  pub more_more : has_more (pf + 32) ≡ true
  pub valid : is_valid pf ≡ true
  pub no_more : has_more pf ≡ false

pub flags_of : (pf : ℕ) → pf < 32 → Flagged pf
flags_of pf h =
    let t : ((bit_or (bit_and pf 0xbf) 0x20 == pf + 32)
          && (bit_and (bit_and pf 0xbf) 0xdf == pf)
          && is_valid (pf + 32)
          && has_more (pf + 32)
          && is_valid pf
          && not (has_more pf))
        ≡ true =
      all_below_sound 32 _ pf flag_table h in
    record {
      more_set = ground arith;
      more_cleared = ground arith;
      more_valid = ground arith;
      more_more = ground arith;
      valid = ground arith;
      no_more = ground arith;
    }

module _ (ub : PacketBuf) (r : IsReady ub) where
  pub sized : (datasize ub).dat.idxdatsz ≡ ub.dat.idxdatsz + length ub.buffer
  unfolding datasize
  sized =
      let high : ub.dat.idxdatsz ≡ ub.dat.idxdatsz / 2 ^ 16 * 2 ^ 16 = omega (arith, r.unsized) in
      let low : bit_and (length ub.buffer) 0xffff ≡ length ub.buffer =
        bit_and_mask 16 (length ub.buffer) ∙ omega (arith, r.short) in
      ap₂ bit_or high low
      ∙ bit_or_fields 16 (ub.dat.idxdatsz / 2 ^ 16) (length ub.buffer) r.short
      ∙ omega (arith, r.unsized)

  pub size-datasize : size (datasize ub).dat ≡ length ub.buffer
  unfolding size
  size-datasize =
      bit_and_mask 16 (datasize ub).dat.idxdatsz ∙ omega (arith, sized, r.unsized, r.short)

  pub fragment_proto : (fragmented ub).dat.proto ≡ ub.dat.proto + 32
  unfolding fragmented datasize set_has_more set_no_frag
  fragment_proto = (flags_of ub.dat.proto r.unflagged).more_set

  pub fragment_size : (o : ℕ) → size (at_offset (fragmented ub).dat o) ≡ length ub.buffer
  unfolding fragmented set_has_more set_no_frag size
  fragment_size o = size-datasize

  pub fragment-IsPacket : (o : ℕ) → o < 2 ^ 16 → IsPacket (at_offset (fragmented ub).dat o)
  unfolding fragmented datasize set_has_more set_no_frag
  fragment-IsPacket o h = record {
    idxdatsz_fits = omega (arith, sized, r.unsized, r.short, r.packet.idxdatsz_fits);
    randn_fits = r.packet.randn_fits;
    proto_fits = omega (arith, fragment_proto, r.unflagged);
    ttl_fits = r.packet.ttl_fits;
    src_port_fits = r.packet.src_port_fits;
    dst_port_fits = r.packet.dst_port_fits;
    offset_fits = h;
    src_length = r.packet.src_length;
    dst_length = r.packet.dst_length;
  }
