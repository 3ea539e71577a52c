-- ===== src/Mem.antt =====
-- gem5's packet, and the memory components that rewrite packets on their way.
pub mod Packet
pub mod MemCtrl
pub mod AddrMapper
pub mod TagXBar
