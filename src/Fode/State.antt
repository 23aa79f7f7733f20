-- ===== src/Fode/State.antt =====
-- The variables of `optimize_fode_hpc` that live across a generation.
use fode_hpc_wflop.Base.{ℕ, List, ℤ, String}
use fode_hpc_wflop.Fode.Grid.{Matrix}

pub record RunConfig : Type 0 where
  pub seed : ℕ
  pub physical_fes_budget : ℕ
  pub workers : ℤ

-- The last four differences of a kind, newest first; an empty matrix before there is one.
pub record History (W : Type 0) : Type 0 where
  pub h1 : Matrix W
  pub h2 : Matrix W
  pub h3 : Matrix W
  pub h4 : Matrix W

pub record State (W : Type 0) : Type 0 where
  pub population : Matrix W
  pub population_size : ℕ
  pub fitness : List W
  pub best_fitness : W
  pub best_layout : List ℤ
  pub memory_sf : List W
  pub memory_cr : List W
  pub memory_position : ℕ
  pub archive : Matrix W
  pub archive_capacity : ℤ
  pub dp : History W
  pub da : History W
  pub physical_fes : ℕ
  pub legacy_fes : ℕ
  pub iteration : ℕ
  pub generation : ℕ

-- Of `RunResult`: what does not depend on the clock.
pub record RunResult (W : Type 0) : Type 0 where
  pub case_id : String
  pub seed : ℕ
  pub physical_fes : ℕ
  pub generations : ℕ
  pub initial_population : ℕ
  pub final_population : ℕ
  pub requested_workers : ℤ
  pub observed_workers : ℤ
  pub best_expected_power_kw : W
  pub best_layout_1based : List ℤ
