-- ===== src/Farm.antt =====
-- hpc/fode_cpp/src/evaluator.cpp: the expected power of a layout under the Jensen/Park wake model.
-- A vector over layouts, directions or turbines is a list; the loops that fill one are independent
-- for each index.
pub mod Wake
pub mod Fused
pub mod Detail
pub mod Staged
pub mod Evaluate
