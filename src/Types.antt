-- ===== src/Types.antt =====
-- src/types and src/client/options/ack.rs: the values that packets and the session share.
pub mod AckMode
pub mod Pid
pub mod Qos
pub mod ReasonCode
pub mod RoundTrip
