-- ===== src/Virtun.antt =====
-- The kernel network device of fbvirtun.
pub mod Checksum
pub mod Sums
pub mod Packets
pub mod Validity
pub mod Validity6
pub mod Peers
pub mod Tcp
pub mod Udp
pub mod Leak
mod Examples
