-- ===== src/Bf16.antt =====
-- bf16: conversions and matmul_bf16 (xiaotu-moe/csrc/kernels/bf16_gemm.hpp), and the weights that
-- are stored in it (BF16WeightTraits, xiaotu-moe/csrc/moe/moe_v2.hpp).
mod Convert
mod Matmul
mod Sums
mod Product
mod Traits
mod Engine
mod EngineResult
mod Tests
