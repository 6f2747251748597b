-- ===== src/Calls.antt =====
-- The calls of a cycle: backend/lambdas/connect_dispatcher and call_end_handler.
pub mod Services
pub mod Ending
pub mod Dispatch
pub mod Once
pub mod Tries
pub mod Bounds
pub mod Twice
