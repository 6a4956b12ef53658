-- ===== src/Programs.antt =====
-- The two programs: main of NetServer/src/main.cpp and of NetClient/src/main.cpp.
pub mod MasterMain
pub mod WorkerMain
pub mod Hello
pub mod Jobs
