-- ===== src/Sessions.antt =====
-- The application sessions of the hub: their registry, the rules that route them, and the plan of the
-- processes to capture.
pub mod Registry
pub mod RouteRules
pub mod LoopbackPlan
