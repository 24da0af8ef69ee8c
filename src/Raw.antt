-- ===== src/Raw.antt =====
-- src/client/raw: the network connection under the client, its failures and its end.
pub mod Net
pub mod Connection
pub mod Laws
pub mod Answers
pub mod Abort
pub mod Channel
pub mod Examples
pub mod ChannelExamples
