-- ===== src/Net.antt =====
-- The networking layer of NetCommon/include: byte encodings and messages.
pub mod Bytes
pub mod Message
pub mod Queue
pub mod Connection
pub mod Server
pub mod Client
pub mod Print
