-- ===== src/Pipeline.antt =====
-- The master's cutting of a file and the workers' search of the pieces, put together.
pub mod Lines
pub mod Matches
pub mod Handshake
pub mod Trip
pub mod Sums
pub mod Service
