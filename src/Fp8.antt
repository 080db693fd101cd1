-- ===== src/Fp8.antt =====
-- The FP8 weight traits (xiaotu-moe/csrc/moe/moe_v2_fp8.hpp).
pub mod Traits
pub mod E4m3
pub mod Scales
mod Tests
