-- ===== src/Master/Books.antt =====
-- The handlers of the master and its books.
pub mod Reclaim
pub mod Finish
pub mod Messages
pub mod Publish
pub mod Written
pub mod Completion
