-- ===== src/Bpf.antt =====
-- auto_xdp/bpf/maps.py: the classes that hold a kernel map and a cache of what it holds.
pub mod Kernel
pub mod ArrayMap
pub mod LpmMap
pub mod PortPolicy
pub mod Conntrack
pub mod AclMap
pub mod AclMaps
pub mod ConntrackMaps
pub mod RateOuter
pub mod Readback
pub mod Runtime
pub mod Samples
