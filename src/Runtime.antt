-- ===== src/Runtime.antt =====
-- internal/runtime: the flush loop, the housekeeping loop and the service.
pub mod Flush
pub mod Housekeeping
pub mod History
pub mod Interleave
pub mod Service
