-- ===== src/Pool.antt =====
-- The class CThreadPool and the job slots of CWorkerThread (threadpool.h, threadpool.cpp).
mod Tests
pub mod Counts
pub mod State
pub mod Thread
pub mod Moves
pub mod Dispatch
