-- ===== src/Inbound.antt =====
-- backend/shared/inbound: the flow of an incoming call, and the list of contacts.
pub mod Moments
pub mod Selection
pub mod Listing
pub mod Events
pub mod Items
pub mod Handler
