-- ===== src/Dashboard.antt =====
-- The operator's dashboard: src/anglerfish/dashboard/.
pub mod Alerts
pub mod Login
pub mod Fanout
pub mod Sessions
pub mod Tailer
