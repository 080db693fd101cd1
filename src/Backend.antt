-- ===== src/Backend.antt =====
-- The work-stealing backends (xiaotu-moe/csrc/scheduler/backend.cpp, backend_numa.cpp).
pub mod State
pub mod Split
pub mod Stealing
mod Tests
pub mod RunTests
pub mod Nodes
pub mod Homes
pub mod Workers
pub mod Claims
pub mod Assign
pub mod Steps
pub mod Crews
pub mod Exactly
pub mod Drive
pub mod Settle
pub mod Returns
pub mod Threads
mod Placed
pub mod Places
