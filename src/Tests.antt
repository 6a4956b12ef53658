-- ===== src/Tests.antt =====
-- Tests: the properties applied to concrete inputs.
pub mod Wire
pub mod Search
pub mod Cluster
pub mod Service
pub mod Talk
pub mod Pool
pub mod Trip
pub mod Serving
pub mod Steps
pub mod Loops
pub mod Hello
pub mod Promises
pub mod Work
pub mod Answered
pub mod Loaded
pub mod Race
