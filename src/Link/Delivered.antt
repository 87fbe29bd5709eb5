-- ===== src/Link/Delivered.antt =====
-- gold/link/send.go, recv.go and listen.go together: from WritePacket to the handler.
use wire_gold.Common.{
  if◌then◌else◌, length, ℕ, ◌+◌, ◌%◌, ◌^◌, ◌<◌, bit_and, ◌≡◌, Option, some, List, [],
}
use wire_gold.Algo.Seal.{Aead}
use wire_gold.Head.Flags.{proto}
use wire_gold.Head.Packet.{Packet, PacketBuf}
use wire_gold.Head.Builder.{
  hash, seal, zstd, with_data, set_ttl, set_proto, set_dst, set_src, new_packet_builder,
}
use wire_gold.Link.Dispatch.{Peer}
use wire_gold.Link.Send.{Outlet, Draws, Codecs, randkeyidx}

-- The builder before its hash.
abbrev headed : Codecs → Outlet → ℕ → ℕ → ℕ → PacketBuf
headed c l randn pr ttl =
    let start = set_src l.me_ip l.srcport (new_packet_builder c.fresh randn) in
    set_ttl ttl (set_proto pr (set_dst l.peerip l.dstport start))

abbrev pub filled : Codecs → Outlet → ℕ → ℕ → List ℕ → ℕ → PacketBuf
filled c l randn pr bytes ttl =
    let whole = with_data c.little c.md5 bytes (headed c l randn pr ttl) in
    if l.usezstd then zstd c.encode_zstd whole else whole

abbrev pub count_of : Outlet → ℕ
count_of l = (l.sendcount + 1) % 2 ^ 16

-- The sealed packet that WritePacket splits.
abbrev pub sealed : Codecs → Outlet → Draws → Aead → ℕ → List ℕ → ℕ → PacketBuf
sealed c l d aead pr bytes ttl =
    seal aead d.nonce (randkeyidx l d.key_index) (bit_and (count_of l) 0x07ff)
      (hash c.blake (filled c l d.randn pr bytes ttl))

-- The sender has its first key and the one that it draws, and the receiver has them too.
pub record ShareKeys (l : Outlet) (d : Draws) (p : Peer) (aead : Aead) : Type 0 where
  pub first : Aead
  pub far_first : Aead
  pub first_key : l.keys 0 ≡ some first
  pub drawn_key : l.keys (randkeyidx l d.key_index) ≡ some aead
  pub far_first_key : p.keys 0 ≡ some far_first
  pub far_drawn_key : p.keys (randkeyidx l d.key_index) ≡ some aead
  pub small : randkeyidx l d.key_index < 32
  pub nonce_sized : length d.nonce ≡ aead.nonce_size
  pub tagged : 0 < aead.overhead

-- The packet of the pool is empty, and what one end compresses the other unpacks.
pub record Unpacks (c : Codecs) (l : Outlet) (p : Peer) (unzstd : List ℕ → Option (List ℕ))
    : Type 0 where
  pub empty : c.fresh.buffer ≡ []
  pub no_proto : c.fresh.dat.proto ≡ 0
  pub no_size : c.fresh.dat.idxdatsz ≡ 0
  pub alike : p.usezstd ≡ l.usezstd
  pub undone : (bytes : List ℕ) → unzstd (c.encode_zstd bytes) ≡ some bytes
