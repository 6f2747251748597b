-- ===== src/Transcription.antt =====
-- The pipeline from a recording to its transcript.
pub mod Starter
pub mod Sample
