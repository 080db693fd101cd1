-- ===== src/Layers.antt =====
-- The layers that run on Backend_NUMA (xiaotu-moe/csrc/moe/moe.cpp, mlp.cpp and linear.cpp).
pub mod Batches
pub mod Blocks
pub mod Jobs
pub mod Serial
pub mod Finished
pub mod Covered
mod Tasks
mod Tests
