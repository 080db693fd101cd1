-- ===== src/MoeV2.antt =====
-- The mixture-of-experts forward pass (xiaotu-moe/csrc/moe/moe_v2.hpp).
pub mod Routing
pub mod Grouping
pub mod Regroup
pub mod Jobs
pub mod Cover
pub mod Forward
pub mod Phases
pub mod Results
pub mod Spans
pub mod Partition
pub mod Sliced
pub mod SlicedJobs
pub mod SlicedPhase
pub mod SlicedResults
pub mod Serial
pub mod Shards
mod Construct
mod Backs
mod Constructed
mod Throws
mod ConstructTests
mod Tests
mod SlicedTests
