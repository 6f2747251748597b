-- ===== src/Recording.antt =====
-- The keys of the recordings.
pub mod Keys
pub mod Parsing
pub mod Segments
pub mod RoundTrip
pub mod Derived
pub mod JobName
pub mod Metadata
pub mod Native
pub mod Relocator
