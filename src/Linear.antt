-- ===== src/Linear.antt =====
-- The class Linear (xiaotu-moe/csrc/moe/linear.cpp): one matrix over the nodes, its products, and
-- the recursion over a batch.
pub mod Forward
pub mod Loaded
pub mod Shift
pub mod Expected
pub mod Strides
pub mod Products
mod Result
pub mod Batch
pub mod Groups
mod BatchResult
mod Tests
