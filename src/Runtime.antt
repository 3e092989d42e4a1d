-- ===== src/Runtime.antt =====
-- src/runtime: the guest's memory.
pub mod MemoryMap
