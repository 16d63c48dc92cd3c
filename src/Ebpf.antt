-- ===== src/Ebpf.antt =====
-- internal/ebpf: the kernel's traffic map, the attachments of the programs, and the loader.
pub mod TrafficMap
pub mod Link
pub mod Iface
pub mod Attachment
pub mod Loader
