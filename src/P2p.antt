-- ===== src/P2p.antt =====
-- gold/p2p: the transports under the links.
pub mod Pdu
pub mod Tcp
pub mod SeqFifo
pub mod Icmp
