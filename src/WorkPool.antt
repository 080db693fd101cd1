-- ===== src/WorkPool.antt =====
-- The persistent worker pool (xiaotu-moe/csrc/moe/numa_pool.hpp, class NumaWorkPool).
pub mod State
pub mod Worker
pub mod Caller
pub mod Invariant
pub mod Frame
pub mod Moves
pub mod Counts
pub mod Calls
pub mod FlatCalls
pub mod Asleep
pub mod Sharded
mod Tests
