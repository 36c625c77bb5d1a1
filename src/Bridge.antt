-- ===== src/Bridge.antt =====
-- The bridge process (src/anglerfish/bridge): what stands between the lure and the model.
pub mod Sanitize
pub mod Path
pub mod Defense
pub mod RateLimit
pub mod CounterDeception
pub mod Registry
pub mod Session
pub mod Service
