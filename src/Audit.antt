-- ===== src/Audit.antt =====
-- backend/shared/audit: what the audit log shows.
pub mod Mask
