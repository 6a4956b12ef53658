-- ===== src/Worker.antt =====
-- NetClient/src: the worker, which searches the chunks that the master sends.
pub mod Stream
pub mod Lines
pub mod FileProcessor
pub mod Client
pub mod ThreadPool
