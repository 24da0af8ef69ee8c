-- ===== src/Wire.antt =====
-- src/io, src/types/int.rs and src/header.rs: bytes, variable byte integers and fixed headers on a
-- transport.
pub mod Transport
pub mod VarByteInt
pub mod Encoding
pub mod WriteVar
pub mod ReadVar
pub mod Header
pub mod Receive
pub mod RoundTrip
pub mod Feed
pub mod Ints
pub mod Body
pub mod BodyFeed
pub mod Compose
pub mod Strings
pub mod StringRound
pub mod Lists
pub mod Examples
