-- ===== src/SharedBuffer.antt =====
-- The scratch buffer that layers share (xiaotu-moe/csrc/scheduler/shared_mem_buffer.cpp).
pub mod State
pub mod Layout
mod Tests
