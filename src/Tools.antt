-- ===== src/Tools.antt =====
-- src/tools: the command lines of the tools.
pub mod Arguments
pub mod Digits
pub mod Dashed
pub mod AnalyzeOptions
pub mod PacingProbeOptions
