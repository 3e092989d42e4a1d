-- ===== src/Recompiler.antt =====
-- src/recompiler: the guest program's file format, decoder, intermediate form and executors.
pub mod Decoder
pub mod Ir
pub mod Validation
pub mod Executor
pub mod Isa
pub mod Elf
pub mod Dispatcher
