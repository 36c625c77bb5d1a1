-- ===== src/Lure.antt =====
-- The honeypot listener: src/anglerfish/lure/.
pub mod Limiter
