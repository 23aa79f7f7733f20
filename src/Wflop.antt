-- ===== src/Wflop.antt =====
-- hpc/wflop_cpp: the registry of algorithms, the call of the one that a run names, the ledger and the
-- population helpers that its optimizers share, one of these optimizers, and the command line.
pub mod Registry
pub mod Dispatch
pub mod Admitted
pub mod Runtime
pub mod Population
pub mod Finish
pub mod Ise
pub mod Validate
pub mod Run
pub mod Report
pub mod Arguments
mod Examples
