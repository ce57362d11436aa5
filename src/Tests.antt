-- ===== src/Tests.antt =====
-- Runs of the code at concrete inputs, and the theorems there.
pub mod Pipe
pub mod Sessions
pub mod Devices
pub mod Vst
pub mod Latency
pub mod Hosting
pub mod Scenes
pub mod Handoff
pub mod Bridge
