-- ===== src/Employee.antt =====
-- backend/shared/employee: which records are visible, which phone numbers are taken, and which numbers
-- and mail addresses are valid.
pub mod Visibility
pub mod Duplicate
pub mod Validate
pub mod Email
