-- ===== src/Auth.antt =====
-- backend/shared/auth: the lockout after failed logins, and the administrator check; and the triggers
-- of a login that use the lockout.
pub mod Lockout
pub mod Authorization
pub mod Failures
pub mod Triggers
pub mod Reporter
