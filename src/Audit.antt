-- ===== src/Audit.antt =====
-- The audit trail: src/anglerfish/audit.py, which writes it, audit_shipper.py, which sends it away, and
-- dashboard/audit_reader.py, which reads it back.
pub mod Lines
pub mod Log
pub mod Shipper
pub mod Reader
