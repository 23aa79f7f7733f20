-- ===== src/Executor/Invariant.antt =====
-- What holds between any two steps of the threads of a `PersistentExecutor`
-- (hpc/fode_cpp/src/executor.cpp), and that each step keeps it.
pub mod Defs
pub mod Calls
pub mod Phases
pub mod Workers
pub mod Standing
pub mod Owner
pub mod Rouse
pub mod Reachable
