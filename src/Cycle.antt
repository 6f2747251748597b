-- ===== src/Cycle.antt =====
-- backend/shared/cycle: the helpers that decide when a cycle may start and when it is over.
pub mod Finalize
pub mod Exclusivity
