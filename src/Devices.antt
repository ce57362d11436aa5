-- ===== src/Devices.antt =====
-- The physical devices: their catalog, the switch transaction and the recovery from device events.
pub mod Catalog
pub mod Switch
pub mod Recovery
pub mod Crossfade
pub mod Handoff
