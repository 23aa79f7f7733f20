-- ===== src/Case.antt =====
-- hpc/fode_cpp/include/fode/case.hpp. `load_case` admits positive ints only, so they are numbers.
use fode_hpc_wflop.Base.{ℕ, String, List}

pub record CaseData (W : Type 0) : Type 0 where
  pub case_id : String
  pub rows : ℕ
  pub cols : ℕ
  pub turbine_count : ℕ
  pub cell_width : W
  pub theta : List W
  pub velocity : List W
  pub probability : List W
  pub unavailable_cells_1based : List ℕ
