-- ===== src/Session.antt =====
-- src/session: the in-flight packet identifiers of a session and the handshakes of its publications.
pub mod LocalState
pub mod PeerState
pub mod State
pub mod FreeHandle
pub mod InboundHandle
pub mod OutboundHandle
pub mod Ops
pub mod View
pub mod Effects
pub mod Spec
pub mod Refine
pub mod Free
pub mod Calls
pub mod Step
pub mod Run
pub mod Ledger
pub mod Release
pub mod Examples
