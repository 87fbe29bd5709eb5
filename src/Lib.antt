-- ===== src/Lib.antt =====
-- WireGold: a virtual private network over datagrams. A packet of the virtual network is hashed,
-- sealed, split into fragments with a header each, masked and sent to the peer that the router
-- names; the receiver unmasks, parses and collects the fragments, opens the body and hands it to
-- the handler of its protocol. Above the links, a tunnel turns packets into a byte stream.
--
-- The files and what they model (paths in the repository; the functions keep their names in
-- snake_case):
-- - Algo/Xor: internal/algo/crypto.go, EncodeXOR and DecodeXOR, as recursion on the words;
--   Algo/Seal: EncodeAEAD and DecodeAEAD; Algo/Hash: internal/algo/hash.go; Algo/Key:
--   internal/algo/key.go, MixKeys.
-- - Head/Flags, Head/Packet, Head/Header: gold/head/flags.go, protos.go, packet.go, raw.go and
--   box.go, the header and its bytes on little- and big-endian machines.
-- - Head/Builder, Head/Builder/Split: gold/head/builder.go, the chain of calls that makes a
--   packet, and Split. Head/Unbox: gold/head/unbox.go, ParsePacketHeader and WriteDataSegment.
--   Head/Reassembly: the calls that put the fragments of one packet together.
-- - Link/Router: gold/link/router.go. Link/Dispatch: dispatch of gold/link/listen.go,
--   extractPeer of gold/link/peer.go and decode of gold/link/crypto.go. Link/Recv: wait of
--   gold/link/recv.go, on a Host that keeps the packets that wait for parts and the marks of
--   those that came. Link/Recv/Gather: the datagrams of one packet, from the send of one link to
--   the wait of the other. Link/Delivered: the same from WritePacket to the handler. Link/Send:
--   gold/link/send.go. Link/AddPeer: AddPeer of gold/link/peer.go. Link/Nic: sendAllSameDst of
--   gold/link/me.go. Link/Listen: listen and waitordispatch of gold/link/listen.go, as steps of
--   the listener and of its jobs.
-- - Proto: the handlers of gold/proto/hello and gold/proto/nat.
-- - P2p/Pdu: gold/p2p/tcp/pdu.go. P2p/Tcp: gold/p2p/tcp/tcp.go, the endpoints and connections;
--   P2p/Tcp/Write: writeToPeer and WriteToPeer; P2p/Tcp/Receive: receive, keep and ReadFromPeer.
--   P2p/SeqFifo: seqFIFO of gold/p2p/icmp/icmp.go; P2p/Icmp: its peers, ReadFromPeer and
--   WriteToPeer.
-- - Upper/Tunnel: upper/services/tunnel/tunnel.go.
-- - Common: lists, bits, bytes and signed numbers over the native numbers. Examples: the
--   theorems at concrete inputs.
--
-- Conventions: bytes and words are natural numbers with their wrap-around written out; a panic
-- is `none`, or `panics` where a loop may also be endless (Link/Nic); a network link is a
-- number; a loop that is not structural runs on fuel, and its theorem shows that the fuel given
-- is enough (`same_id` and `skip_ipv6` on the length of the buffer, `frames` on the length of
-- the block, `drain` on the size of the map; `receive_loop` on a number of turns, of which one
-- for each packet is enough). The second round of writeToPeer is a second call, so it takes no
-- fuel. A call that waits for a lock returns `waits`, and goes on by `write_main` in whatever
-- state it then finds. A text that is only compared is a number. A shared object is a value that
-- each operation returns.
--
-- Parameters, for code outside the repository: the TCP connections (a record of dialing, writing
-- and shutting, with the laws that a write without error gives all its bytes to its own
-- connection, that a dialed connection has none yet, and, as a hypothesis of the properties that
-- need it, that its far end is the address dialed, which package net does not promise for an
-- unspecified host as 0.0.0.0), what raw sockets and the parser of ICMP messages give, MD5
-- (sixteen bytes), BLAKE2b-256 (thirty-two bytes), the AEAD cipher (a record with the law that
-- opening undoes sealing), zstd and base16384, the parsing of IP headers, which panics on
-- packets that are too short, and of JSON, what NewEndPoint makes of a text, the ciphers that
-- keys make, the bytes that the random generator draws, the buffer library's Slice (a subslice
-- within bounds).
--
-- Not modelled: the system calls under the sockets and the start of threads, the transports over
-- UDP, UDP-Lite and IP, which only pass datagrams on, WriteToPeer of the TCP transport after its
-- Close, the network card, configuration and the command line, and the expiry of the caches:
-- input and output, or libraries that the sources only call.
pub mod Common
pub mod Algo
pub mod Head
pub mod Link
pub mod P2p
pub mod Proto
pub mod Upper
pub mod Examples
