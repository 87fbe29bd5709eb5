-- ===== src/Examples.antt =====
-- The theorems at concrete inputs, and runs of the definitions.
mod Delivered
mod Cases
mod Algo
mod Head
mod Fragments
mod Link
mod Upper
mod Network
mod Peers
mod Proto
mod Tcp
mod Icmp
mod Listen
mod Gather
