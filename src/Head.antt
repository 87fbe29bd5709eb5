-- ===== src/Head.antt =====
-- gold/head: the packet, its header on the wire, the builder that splits, the parser that reassembles.
pub mod Flags
pub mod Packet
pub mod Header
pub mod Unbox
pub mod Builder
pub mod Reassembly
