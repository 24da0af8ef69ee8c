-- ===== src/Session/Effects.antt =====
-- What the handles of src/session/handle.rs do to a valid session, in terms of its lookups.
pub mod Inbound
pub mod Outbound
pub mod Bulk
pub mod Subs
pub mod Free
