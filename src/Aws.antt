-- ===== src/Aws.antt =====
-- The tables of DynamoDB as the handlers use them.
pub mod Tables
pub mod Rows
pub mod Retries
pub mod Preserved
