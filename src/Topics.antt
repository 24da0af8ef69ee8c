-- ===== src/Topics.antt =====
-- src/types/topic.rs: topic names, topic filters and the filters of a SUBSCRIBE packet.
pub mod Name
pub mod Filter
pub mod Levels
pub mod Parts
pub mod Scan
pub mod Shared
pub mod Subscription
pub mod Examples
