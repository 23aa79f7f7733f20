-- ===== src/Gga.antt =====
-- hpc/gga_cpp/src/main.cpp: layouts on a list of candidate sites, as zero-based numbers, their ranking
-- and their cables.
pub mod Layout
pub mod Ranking
pub mod Cables
