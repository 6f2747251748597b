-- ===== src/CycleApi.antt =====
-- The API of the cycles: backend/lambdas/cycle_api/handler.py.
pub mod Request
pub mod Handler
pub mod Routes
pub mod Only
pub mod Created
