-- ===== src/Packed4.antt =====
-- The packed 4-bit weight traits (xiaotu-moe/csrc/moe/moe_v2_packed4.hpp).
pub mod Kernel
pub mod Tables
pub mod Traits
pub mod Slices
mod Tests
mod Interface
