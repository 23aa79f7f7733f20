-- ===== src/Farm/Evaluate.antt =====
-- `evaluate_population_hpc`: the layouts are checked, then evaluated.
pub mod Feasible
use fode_hpc_wflop.Base.{
  ℕ, List, [], ◌∷◌, map, length, Bool, false, not, ◌==◌, ◌||◌, ◌&&◌, ltb, if◌then◌else◌, Result, ok,
  err, invalid_argument, throw_if, ◌>>◌, ℤ, pos, ltb_ℤ, eqb_ℤ, all_of,
}
use fode_hpc_wflop.Base.Sort.{stable_sort}
use fode_hpc_wflop.Case.{CaseData}
use fode_hpc_wflop.Double.{Double}
use fode_hpc_wflop.Farm.Fused.{layout_fitness}
use fode_hpc_wflop.Fode.Grid.{Matrix, grid_dimension}

-- The cells of one layout, or the exception of the first that is off the grid.
cells_on_grid : ℕ → List ℤ → Result (Unit {0})
cells_on_grid grid [] = ok tt
cells_on_grid grid (cell ∷ cells) =
    let rest = cells_on_grid grid cells in
    if ltb_ℤ cell (pos 1) || ltb_ℤ (pos grid) cell
    then err (invalid_argument "layout contains an out-of-range grid cell")
    else rest

-- `std::adjacent_find(...) != end`
unfoldable pub has_adjacent : List ℤ → Bool
has_adjacent (x ∷ y ∷ cells) = eqb_ℤ x y || has_adjacent (y ∷ cells)
has_adjacent _ = false

module _ {W : Type 0} ⦃D : Double W⦄ (farm : CaseData W) where
  unfoldable pub check_layout : List W → Result (Unit {0})
  unfolding cells_on_grid has_adjacent
  check_layout row = do
    let cells = map D.round_int row
    cells_on_grid (grid_dimension farm) cells
    throw_if (has_adjacent (stable_sort ltb_ℤ cells))
        (invalid_argument "layout contains duplicate grid cells")

  unfoldable pub check_layouts : Matrix W → Result (Unit {0})
  unfolding check_layout
  check_layouts [] = ok tt
  check_layouts (row ∷ rows) = do check_layout row; check_layouts rows

  -- The fitness of each row of the batch.
  unfoldable pub evaluate_population_hpc : Matrix W → ℕ → Result (List W)
  unfolding check_layouts
  evaluate_population_hpc indices batch_size = do
    throw_if (ltb batch_size 1) (invalid_argument "batch size must be positive")
    throw_if
        (not (
          length indices == batch_size && all_of (λ row. length row == farm.turbine_count) indices))
        (invalid_argument "index matrix has an invalid shape")
    check_layouts indices
    ok (map (layout_fitness farm) indices)
