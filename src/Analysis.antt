-- ===== src/Analysis.antt =====
-- src/analysis: what the library says about guest code.
pub mod ControlFlow
pub mod Reachability
pub mod ElfAnalysis
