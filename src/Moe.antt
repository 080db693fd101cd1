-- ===== src/Moe.antt =====
-- The class MOE (xiaotu-moe/csrc/moe/moe.cpp): its weights over the nodes, forward_one,
-- forward_many_m and forward.
pub mod Kernels
mod Reorder
mod Slots
mod Weights
mod Forward
mod Loaded
pub mod Writes
mod Expected
mod Inputs
pub mod Held
mod Acts
mod Activated
pub mod Rows
mod Prepared
mod Downs
mod Sums
mod Result
mod One
mod OneActs
mod OneResult
mod Batch
mod BatchResult
pub mod Built
mod Workers
pub mod Tests
