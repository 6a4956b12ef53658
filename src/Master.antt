-- ===== src/Master.antt =====
-- NetServer/src/MasterServer.cpp: the master, which cuts files into chunks and hands them out.
pub mod Chunks
pub mod State
pub mod Scan
pub mod Dispatch
pub mod Results
pub mod Handlers
pub mod Accounting
pub mod Books
pub mod Start
pub mod Promises
pub mod Steps
pub mod Served
