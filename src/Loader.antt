-- ===== src/Loader.antt =====
-- The checks of `parse_case` in hpc/fode_cpp/src/case_loader.cpp, from the fields that the JSON reader
-- has filled to the case that the optimizers get.
pub mod Json
pub mod Cases
pub mod Admits
mod Examples
use Prim.Native.String.{◌++◌ as ◌<>◌}
use text.Mathlib.Text.{◌==◌ as ◌≗◌}
use fode_hpc_wflop.Base.{
  ◌==◌, length, is_empty, all_of, ℤ, pos, pos_part, ◌-ℤ◌, ltb_ℤ, runtime_error, Result, ok, ◌>>=◌,
  ◌>>◌, throw_if, ℕ, ◌*◌, String, Bool, false, not, ◌&&◌, ◌||◌, List, [], ◌∷◌, map,
}
use fode_hpc_wflop.Base.Sort.{stable_sort}
use fode_hpc_wflop.Case.{CaseData}
use fode_hpc_wflop.Double.{Double, ◌⊖◌, nought, unity, sum_from}
use fode_hpc_wflop.Farm.Evaluate.{has_adjacent}

-- The fields before the checks, where an int may still be negative.
pub record CaseFields (W : Type 0) : Type 0 where
  pub case_id : String
  pub rows : ℤ
  pub cols : ℤ
  pub turbine_count : ℤ
  pub cell_width : W
  pub theta : List W
  pub velocity : List W
  pub probability : List W
  pub unavailable_cells_1based : List ℤ

-- `value <= 0`
abbrev not_positive : ℤ → Bool
not_positive n = ltb_ℤ n (pos 1)

abbrev pub last_of : ℤ → List ℤ → ℤ
last_of x [] = x
last_of x (y ∷ ys) = last_of y ys

-- `!empty && (front < 1 || back > grid)`, of sorted cells
abbrev pub off_grid : ℕ → List ℤ → Bool
off_grid grid [] = false
off_grid grid (x ∷ xs) = ltb_ℤ x (pos 1) || ltb_ℤ (pos grid) (last_of x xs)

module _ {W : Type 0} ⦃D : Double W⦄ where
  unfoldable pub breaks_contract : CaseFields W → Bool
  breaks_contract c =
      c.case_id ≗ ""
      || not_positive c.rows
      || not_positive c.cols
      || not_positive c.turbine_count
      || D.le c.cell_width nought
      || is_empty c.theta
      || is_empty c.velocity
      || not (length c.probability == length c.theta * length c.velocity)
      || not (all_of D.is_finite c.theta)
      || not (all_of (λ v. D.is_finite v && D.lt nought v) c.velocity)
      || not (all_of (λ p. D.is_finite p && D.le nought p) c.probability)
      || D.lt (D.literal 1 4) (D.abs (sum_from nought c.probability ⊖ unity))

  -- The case of fields that pass.
  abbrev pub case_of : CaseFields W → CaseData W
  case_of c = record {
    case_id = c.case_id;
    rows = pos_part c.rows;
    cols = pos_part c.cols;
    turbine_count = pos_part c.turbine_count;
    cell_width = c.cell_width;
    theta = c.theta;
    velocity = c.velocity;
    probability = c.probability;
    unavailable_cells_1based = map pos_part (stable_sort ltb_ℤ c.unavailable_cells_1based);
  }

  unfoldable pub check_case : CaseFields W → Result (CaseData W)
  check_case c = do
    throw_if (breaks_contract c)
        (runtime_error ("invalid discrete WFLOP case contract for " <> c.case_id))
    let grid = pos_part c.rows * pos_part c.cols
    let cells = stable_sort ltb_ℤ c.unavailable_cells_1based
    throw_if (has_adjacent cells || off_grid grid cells)
        (runtime_error ("invalid unavailable-cell set for " <> c.case_id))
    throw_if (ltb_ℤ (pos grid -ℤ pos (length cells)) c.turbine_count)
        (runtime_error ("insufficient available cells for " <> c.case_id))
    ok (case_of c)
