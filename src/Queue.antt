-- ===== src/Queue.antt =====
-- src/bsdqueue.h: the tail queues that hold the tasks, as they lie in memory.
pub mod Join
pub mod Mem
pub mod Insert
pub mod Ops
pub mod Refine
pub mod Remove
pub mod Rep
pub mod Shift
mod Tests
pub mod Twice
pub mod Walk
