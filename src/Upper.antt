-- ===== src/Upper.antt =====
-- The services above the links.
pub mod Tunnel
