-- ===== src/Core.antt =====
-- src/core: the options of the runtime, the statistics and the telemetry of its frames.
pub mod RuntimeOptions
pub mod FrameStats
pub mod PacingTelemetry
