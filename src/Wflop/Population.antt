-- ===== src/Wflop/Population.antt =====
-- `initialize_population` and `repair_population` of hpc/wflop_cpp/src/algorithms.cpp. They have the
-- loops of their namesakes in hpc/fode_cpp/src/optimizer.cpp, with the phases of the caller; but the
-- filling loop draws until the row is full, so that `rounds` is its fuel.
pub mod Filled
pub mod Feasible
use fode_hpc_wflop.Base.{
  ℕ, zero, suc, ◌+◌, Bool, List, [], ◌∷◌, map, length, range, ltb, if◌then◌else◌, pos, Result, ok,
  err, out_of_fuel, ◌>>=◌,
}
use fode_hpc_wflop.Case.{CaseData}
use fode_hpc_wflop.Double.{Double}
use fode_hpc_wflop.Rng.Generator.{Generator}
use fode_hpc_wflop.Fode.Grid.{Matrix, grid_dimension}
use fode_hpc_wflop.Fode.Initialize.{selected}
use fode_hpc_wflop.Fode.Repair.{Filling, occupy_candidates, draw_cell, placed_cells, overwrite}
use fode_hpc_wflop.Wflop.Runtime.{blocked_mask, available_cells}

-- `while (placed < dimension)`
unfoldable pub draw_cells : Generator → ℕ → ℕ → ℕ → ℕ → ℕ → ℕ → Filling → Result Filling
draw_cells rng grid generation phase row zero dimension s =
    if ltb s.placed dimension then err out_of_fuel else ok s
draw_cells rng grid generation phase row (suc fuel) dimension s =
    let rest =
      draw_cells rng grid generation phase row fuel dimension
        (draw_cell rng grid generation phase row s) in
    if ltb s.placed dimension then rest else ok s

module _ {W : Type 0} ⦃D : Double W⦄ (rng : Generator) where
  unfoldable pub initialize_population : ℕ → CaseData W → ℕ → Matrix W
  initialize_population population_size farm phase =
      map
        (λ individual.
          map (λ cell. D.of_int (pos cell))
            (selected rng phase (available_cells farm) farm.turbine_count individual))
        (range population_size)

  module _ (rounds : ℕ) (farm : CaseData W) (generation phase : ℕ) where
    -- One row; the first count is of the cells that are used and not blocked.
    unfoldable pub repair_row : ℕ → List W → Result (List W)
    repair_row row coordinates = do
      let grid = grid_dimension farm
      let blocked = blocked_mask farm
      let used = occupy_candidates rng grid generation phase row blocked 0 coordinates blocked
      filled ←
          draw_cells rng grid generation (phase + 1) row rounds farm.turbine_count
            (record { occupied = used; placed = length (placed_cells 1 used blocked); draw = 0 })
      ok (overwrite rng farm coordinates (placed_cells 1 filled.occupied blocked))

    -- The rows from number `row` on.
    unfoldable pub repair_rows : ℕ → Matrix W → Result (Matrix W)
    repair_rows row [] = ok []
    repair_rows row (coordinates ∷ population) = do
      repaired ← repair_row row coordinates
      rest ← repair_rows (suc row) population
      ok (repaired ∷ rest)

    unfoldable pub repair_population : Matrix W → Result (Matrix W)
    repair_population population = repair_rows 0 population
