-- ===== src/Vst.antt =====
-- The state of hosted VST3 plugins that a scene captures and restores.
pub mod PluginState
pub mod Migration
pub mod BusLayout
pub mod Latency
pub mod WorkerLane
pub mod PluginHost
pub mod SceneState
