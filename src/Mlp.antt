-- ===== src/Mlp.antt =====
-- The class MLP (xiaotu-moe/csrc/moe/mlp.cpp): three matrices over the nodes, and their products.
mod Forward
mod Expected
mod Inputs
mod Acts
mod Result
mod Batch
mod Tests
