-- ===== src/Client.antt =====
-- src/client/mod.rs: what the client does with the answers of its session.
pub mod Poll
pub mod Total
pub mod Ledger
pub mod Rerelease
pub mod Released
pub mod Examples
