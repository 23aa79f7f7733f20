-- ===== src/Fode/Grid.antt =====
-- The grid's cells and the matrices of optimizer.cpp: `unavailable_mask`, `offset`. A matrix is the
-- list of its rows.
pub mod Masks
pub mod Unavailable
use fode_hpc_wflop.Base.{
  map, pos, ℕ, suc, ◌+◌, ◌-◌, ◌*◌, ◌^◌, ◌<◌, ◌≤◌, ◌≡◌, Bool, true, false, ◌||◌, List, [], ◌∷◌, ltb,
  ◌==◌, if◌then◌else◌, set, replicate, Result, ok, err, runtime_error, length, All,
}
use fode_hpc_wflop.Base.Sort.Laws.{Ascends}
use fode_hpc_wflop.Case.{CaseData}
use fode_hpc_wflop.Double.{Double}

abbrev pub Matrix : Type 0 → Type 0
Matrix W = List (List W)

-- `row * dimension + col`
pub offset : ℕ → ℕ → ℕ → ℕ
offset row col dimension = row * dimension + col

abbrev pub grid_dimension : {W : Type 0} → CaseData W → ℕ
grid_dimension farm = farm.rows * farm.cols

-- The loop over the case's cells, with the mask so far.
unfoldable pub mark_cells : ℕ → List ℕ → List Bool → Result (List Bool)
mark_cells grid [] mask = ok mask
mark_cells grid (cell_1based ∷ cells) mask =
    let rest = mark_cells grid cells (set mask (cell_1based - 1) true) in
    if ltb cell_1based 1 || ltb grid cell_1based
    then err (runtime_error "case has an out-of-range unavailable cell")
    else rest

unfoldable pub unavailable_mask : {W : Type 0} → CaseData W → Result (List Bool)
unfolding mark_cells
unavailable_mask farm =
    mark_cells (grid_dimension farm) farm.unavailable_cells_1based
      (replicate (grid_dimension farm) false)

-- The one-based cells whose mark is 0, ascending; `cell` is the number of the first mark.
unfoldable pub free_cells : ℕ → List Bool → List ℕ
free_cells cell [] = []
free_cells cell (blocked ∷ marks) =
    let rest = free_cells (suc cell) marks in if blocked then rest else cell ∷ rest

-- An independent description of the cells that a layout may use.
unfoldable pub contains : ℕ → List ℕ → Bool
contains cell [] = false
contains cell (c ∷ cells) = c == cell || contains cell cells

pub record IsFree {W : Type 0} (farm : CaseData W) (cell : ℕ) : Type 0 where
  pub positive : 1 ≤ cell
  pub on_grid : cell ≤ grid_dimension farm
  pub available : contains cell farm.unavailable_cells_1based ≡ false

-- What `load_case` guarantees of a case, as far as its cells go. The grid's indices fit an int.
pub record IsCase {W : Type 0} (farm : CaseData W) : Type 0 where
  pub small : grid_dimension farm < 2 ^ 31
  pub turbines : 0 < farm.turbine_count
  pub cells : All (λ cell. (1 ≤ cell) × (cell ≤ grid_dimension farm)) farm.unavailable_cells_1based
  pub room : farm.turbine_count + length farm.unavailable_cells_1based ≤ grid_dimension farm

-- A layout of the case: as many cells as turbines, strictly ascending, on the grid, none of them
-- unavailable.
pub record IsFeasible {W : Type 0} (farm : CaseData W) (cells : List ℕ) : Type 0 where
  pub complete : length cells ≡ farm.turbine_count
  pub ascends : Ascends 0 cells
  pub free : All (IsFree farm) cells

-- A row of doubles that holds the cells of a feasible layout.
pub record IsLayoutRow {W : Type 0} ⦃D : Double W⦄ (farm : CaseData W) (row : List W) : Type 0 where
  pub cells : List ℕ
  pub spelled : row ≡ map (λ cell. D.of_int (pos cell)) cells
  pub feasible : IsFeasible farm cells

-- A population of so many feasible layouts.
pub record IsPopulation {W : Type 0} ⦃D : Double W⦄ (farm : CaseData W) (size : ℕ) (rows : Matrix W)
    : Type 0 where
  pub layouts : All (IsLayoutRow farm) rows
  pub count : length rows ≡ size

pub record ReturnsPopulation {W : Type 0} ⦃D : Double W⦄ (farm : CaseData W) (size : ℕ)
    (r : Result (Matrix W)) : Type 0 where
  pub rows : Matrix W
  pub returned : r ≡ ok rows
  pub population : IsPopulation farm size rows
