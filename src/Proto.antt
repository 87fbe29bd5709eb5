-- ===== src/Proto.antt =====
-- gold/proto: the handlers of the protocols.
pub mod Nat
pub mod Hello
