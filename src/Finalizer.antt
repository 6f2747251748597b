-- ===== src/Finalizer.antt =====
-- backend/lambdas/cycle_finalizer: the end of a cycle.
pub mod Event
pub mod Services
pub mod Handler
