-- ===== src/Fode/Repair.antt =====
-- `repair_population` of optimizer.cpp: candidates become feasible layouts.
pub mod Fill
pub mod Feasible
use fode_hpc_wflop.Base.{
  ℕ, zero, suc, ◌+◌, ◌-◌, ◌*◌, ◌%◌, ◌^◌, Bool, true, false, not, ◌||◌, ◌&&◌, List, [], ◌∷◌, ◌++◌,
  map, ltb, if◌then◌else◌, length, set, get_or, take, drop, count_if, Result, ok, err, out_of_fuel,
  ◌>>=◌, ℤ, pos, negsuc,
}
use fode_hpc_wflop.Case.{CaseData}
use fode_hpc_wflop.Double.{Double}
use fode_hpc_wflop.Rng.{u64}
use fode_hpc_wflop.Rng.Generator.{Generator, key}
use fode_hpc_wflop.Fode.Phase
use fode_hpc_wflop.Fode.Grid.{Matrix, grid_dimension, unavailable_mask}

-- The cell that a truncated coordinate names, unless it is off the grid.
on_grid : ℕ → ℤ → ℕ → ℕ
on_grid grid (pos cell) drawn = if ltb cell 1 || ltb grid cell then drawn else cell
on_grid grid (negsuc n) drawn = drawn

-- The first cell that is not occupied becomes occupied; the flag says if there was one.
unfoldable pub occupy_first : List Bool → List Bool × Bool
occupy_first [] = ([], false)
occupy_first (true ∷ cells) = let (rest, found) = occupy_first cells in (true ∷ rest, found)
occupy_first (false ∷ cells) = (true ∷ cells, true)

pub record Filling : Type 0 where
  pub occupied : List Bool
  pub placed : ℕ
  pub draw : ℕ

-- `static_cast<std::uint64_t>(10000 * grid_dimension)`. The product is an int. Where it overflows,
-- which C++ leaves undefined, it wraps in two's complement, and a negative one is cast to 2 ^ 64 less
-- its amount.
unfoldable pub draw_limit : ℕ → ℕ
draw_limit grid =
    let product = 10000 * grid % 2 ^ 32 in
    if ltb product (2 ^ 31) then product else 2 ^ 64 - 2 ^ 32 + product

module _ (rng : Generator) (grid generation phase individual : ℕ) where
  -- The first loop, over the candidate's coordinates from number `d` on.
  unfoldable pub occupy_candidates :
      {W : Type 0} ⦃D : Double W⦄ → List Bool → ℕ → List W → List Bool → List Bool
  unfolding on_grid
  occupy_candidates blocked d [] occupied = occupied
  occupy_candidates ⦃D⦄ blocked d (x ∷ xs) occupied =
      let drawn = rng.integer 1 (grid + 1) (key generation phase individual d 0) in
      let cell = on_grid grid (D.ceil_int x) drawn in
      occupy_candidates blocked (suc d) xs
        (if get_or blocked (cell - 1) false then occupied else set occupied (cell - 1) true)

  -- One round of the second loop: a drawn cell, and past the limit also the first free one.
  unfoldable pub draw_cell : Filling → Filling
  draw_cell s =
      let cell = rng.integer 1 (grid + 1) (key generation phase individual 0 s.draw) in
      if get_or s.occupied (cell - 1) false then record s { draw = s.draw + 1 } else record {
        occupied = set s.occupied (cell - 1) true;
        placed = s.placed + 1;
        draw = s.draw + 1;
      }

  -- `draw` is a uint64: the increment of `draw_cell` wraps here.
  unfoldable pub fall_back : Filling → Filling
  fall_back s =
      let (cells, found) = occupy_first s.occupied in
      let draw = u64 s.draw in
      if ltb (draw_limit grid) draw
      then record { occupied = cells; placed = s.placed + (if found then 1 else 0); draw = draw }
      else record s { draw = draw }

  -- `while (placed < dimension)`
  unfoldable pub fill : ℕ → ℕ → Filling → Result Filling
  fill zero dimension s = err out_of_fuel
  fill (suc fuel) dimension s =
      let rest = fill fuel dimension (fall_back (draw_cell s)) in
      if ltb s.placed dimension then rest else ok s

-- The cells that are occupied and not blocked, from cell number `cell` on.
unfoldable pub placed_cells : ℕ → List Bool → List Bool → List ℕ
placed_cells cell (o ∷ os) (b ∷ bs) =
    let rest = placed_cells (suc cell) os bs in if o && not b then cell ∷ rest else rest
placed_cells cell _ _ = []

module _ {W : Type 0} ⦃D : Double W⦄ (rng : Generator) (farm : CaseData W) where
  -- The last loop writes at most `dimension` cells over the front of the row.
  unfoldable pub overwrite : List W → List ℕ → List W
  overwrite row cells =
      let written = map (λ cell. D.of_int (pos cell)) (take farm.turbine_count cells) in
      written ++ drop (length written) row

  -- The fuel is enough for one round past the limit for each turbine, and all values of `draw`
  -- before each of them.
  unfoldable pub repair_row : List Bool → ℕ → ℕ → ℕ → List W → Result (List W)
  unfolding overwrite
  repair_row blocked generation bias individual row = do
    let grid = grid_dimension farm
    let occupied =
        occupy_candidates rng grid generation (Phase.repair_bound + bias) individual blocked 0 row
          blocked
    let placed = count_if (λ o. o) occupied - count_if (λ b. b) blocked
    filled ←
        fill rng grid generation (Phase.repair_fill + bias) individual
          (2 ^ 64 * (farm.turbine_count + 1)) farm.turbine_count
          (record { occupied = occupied; placed = placed; draw = 0 })
    ok (overwrite row (placed_cells 1 filled.occupied blocked))

  -- the rows in the order of their index
  unfoldable pub repair_rows : List Bool → ℕ → ℕ → ℕ → Matrix W → Result (Matrix W)
  unfolding repair_row
  repair_rows blocked generation bias individual [] = ok []
  repair_rows blocked generation bias individual (row ∷ rows) = do
    repaired ← repair_row blocked generation bias individual row
    rest ← repair_rows blocked generation bias (suc individual) rows
    ok (repaired ∷ rest)

  unfoldable pub repair_population : Matrix W → ℕ → ℕ → Result (Matrix W)
  unfolding repair_rows
  repair_population candidates generation phase_bias = do
    blocked ← unavailable_mask farm
    repair_rows blocked generation phase_bias 0 candidates
