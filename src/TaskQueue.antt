-- ===== src/TaskQueue.antt =====
-- The asynchronous task queue (xiaotu-moe/csrc/scheduler/task_queue.cpp, task_queue.h).
pub mod State
pub mod Sync
pub mod Drain
mod Tests
