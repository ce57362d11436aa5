-- ===== src/Bridge.antt =====
-- The native bridge, over which browser tabs send their audio.
pub mod Frame
