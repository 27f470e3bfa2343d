-- ===== src/Net.antt =====
-- src/net.rs: what Exo sends over the network.
pub mod Arp
pub mod Checksum
pub mod Writer
pub mod Payload
pub mod Frame
