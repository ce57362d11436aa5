-- ===== src/Vst/Latency.antt =====
-- The alignment of parallel lanes whose plugins report different latencies.
pub mod Plan
pub mod Delay
pub mod Commit
