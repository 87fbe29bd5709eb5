-- ===== src/Link.antt =====
-- gold/link: routing, receiving and sending of datagrams.
pub mod Router
pub mod Delivered
pub mod Dispatch
pub mod Recv
pub mod Listen
pub mod Send
pub mod Nic
pub mod AddPeer
