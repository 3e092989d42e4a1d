-- ===== src/Tests.antt =====
-- Runs of the models, and the theorems at concrete inputs.
mod Decoder
mod Executor
mod Image
mod Analysis
mod Reachability
mod Dispatcher
mod CommandLines
