-- ===== src/Dictionary.antt =====
-- backend/shared/dictionary: the keyword dictionary of a cycle.
pub mod Snapshot
pub mod ActiveCount
pub mod Changes
pub mod Api
