-- ===== src/Threat.antt =====
-- The threat engine: src/anglerfish/threat/ and src/anglerfish/models/threat.py.
pub mod Technique
pub mod Scorer
pub mod Alerter
pub mod Alerts
mod Tests
