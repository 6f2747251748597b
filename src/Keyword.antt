-- ===== src/Keyword.antt =====
-- backend/shared/keyword: what the words of an answer mean.
pub mod Matcher
pub mod Transcript
pub mod Event
pub mod Handler
