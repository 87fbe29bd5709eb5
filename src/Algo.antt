-- ===== src/Algo.antt =====
-- internal/algo: masking, key mixing, sealing and hashing.
pub mod Xor
pub mod Key
pub mod Seal
pub mod Hash
