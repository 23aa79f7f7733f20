-- ===== src/Fode.antt =====
-- hpc/fode_cpp/src/optimizer.cpp: the FODE optimizer.
pub mod Phase
pub mod Grid
pub mod Initialize
pub mod Repair
pub mod Archive
pub mod Survivors
pub mod State
pub mod Sample
pub mod Trial
pub mod Accept
pub mod Generation
pub mod Optimize
pub mod Fixture
mod Examples
