-- ===== src/Session/Spec.antt =====
-- The handshakes of one packet identifier as abstract machines, with no vector, index or handle.
pub mod Peer
pub mod Local
pub mod After
