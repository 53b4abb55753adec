-- ===== src/SriovCni.antt =====
-- The SR-IOV CNI plugin: sriov_cni.
pub mod Types
pub mod Host
pub mod NetlinkManager
pub mod Utils
pub mod Allocator
pub mod Config
pub mod Sriov
pub mod Logging
pub mod Packets
pub mod Command
