-- ===== src/Session/Refine.antt =====
-- The operations of src/session on vectors and handles implement the abstract handshakes.
pub mod InboundHandle
pub mod Inbound
pub mod OutboundHandle
pub mod Outbound
