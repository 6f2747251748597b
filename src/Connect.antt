-- ===== src/Connect.antt =====
-- backend/shared/connect: the codes in which a call ends.
pub mod CallResult
pub mod Mock
