-- ===== src/Wflop/Population/Feasible.antt =====
-- Populations of hpc/wflop_cpp/src/algorithms.cpp are feasible layouts.
use fode_hpc_wflop.Base.{
  ℕ, suc, ◌+◌, ◌-◌, ◌≤◌, ◌≡◌, refl, sym, ap, ◌∙◌, Bool, true, false, List, [], ◌∷◌, length, set,
  All, ok, ok-injective, replicate, arith,
}
use fode_hpc_wflop.Case.{CaseData}
use fode_hpc_wflop.Double.{Double}
use fode_hpc_wflop.Rng.Generator.{Generator, Reaches}
use fode_hpc_wflop.Fode.Grid.{
  Matrix, grid_dimension, mark_cells, unavailable_mask, IsCase, IsPopulation, ReturnsPopulation,
}
use fode_hpc_wflop.Fode.Grid.Masks.{Covers, Covers-refl, length-placed_cells}
use fode_hpc_wflop.Fode.Grid.Unavailable.{HasMask, unavailable_mask-HasMask}
use fode_hpc_wflop.Fode.Initialize.Feasible.{rows_of-IsPopulation}
use fode_hpc_wflop.Fode.Repair.{Filling, occupy_candidates, placed_cells, overwrite}
use fode_hpc_wflop.Fode.Repair.Fill.{Filled}
use fode_hpc_wflop.Fode.Repair.Feasible.{
  Repaired, occupy_candidates-Covers, written-IsFeasible, overwrite-IsLayoutRow,
}
use fode_hpc_wflop.Wflop.Runtime.{block_cells, blocked_mask, available_cells}
use fode_hpc_wflop.Wflop.Population.{
  draw_cells, initialize_population, repair_row, repair_rows, repair_population,
}
use fode_hpc_wflop.Wflop.Population.Filled.{draw_cells-Filled}

mark_cells-block_cells :
    (grid : ℕ) (cells : List ℕ) (mask : List Bool)
    → All (λ cell. (1 ≤ cell) × (cell ≤ grid)) cells
    → mark_cells grid cells mask ≡ ok (block_cells cells mask)
unfolding mark_cells block_cells
mark_cells-block_cells grid [] mask h = refl
mark_cells-block_cells grid (cell ∷ cells) mask (h, hs) =
    ground (arith, mark_cells-block_cells grid cells (set mask (cell - 1) true) hs)

-- The two masks of an admitted case are the same.
blocked_mask-mask :
    {W : Type 0} (farm : CaseData W) (valid : IsCase farm) (m : HasMask farm)
    → blocked_mask farm ≡ m.mask
unfolding blocked_mask unavailable_mask
blocked_mask-mask farm valid m = ok-injective _ _ (
    sym (
      mark_cells-block_cells (grid_dimension farm) farm.unavailable_cells_1based
        (replicate (grid_dimension farm) false) valid.cells)
    ∙ m.returned)

module _ {W : Type 0} ⦃D : Double W⦄ (rng : Generator) (farm : CaseData W)
    (valid : IsCase farm) where
  -- Every row that `initialize_population` makes is a feasible layout, for every phase.
  pub initialize_population-IsPopulation :
      (population_size phase : ℕ)
      → IsPopulation farm population_size (initialize_population rng population_size farm phase)
  unfolding initialize_population available_cells
  initialize_population-IsPopulation population_size phase =
      let m = unavailable_mask-HasMask farm valid in
      rw (blocked_mask-mask farm valid m) (rows_of-IsPopulation rng farm m phase population_size)

  module _ (rounds : ℕ) (reaches : Reaches rng rounds 1 (grid_dimension farm + 1))
      (generation phase : ℕ) where
    repair_row-Repaired :
        (row : ℕ) (coordinates : List W)
        → length coordinates ≡ farm.turbine_count
        → Repaired rng farm (repair_row rng rounds farm generation phase row coordinates)
    unfolding repair_row
    repair_row-Repaired row coordinates long = rw (blocked_mask-mask farm valid m) (record {
      row = overwrite rng farm coordinates (placed_cells 1 done.result.occupied m.mask);
      returned = rw done.returned;
      layout = overwrite-IsLayoutRow rng farm coordinates _ long (
          written-IsFeasible rng farm m done.result.occupied done.result.placed done.filling.covers
            done.filling.counted done.enough);
    })
      where
        m : HasMask farm
        m = unavailable_mask-HasMask farm valid

        used : List Bool
        used =
            occupy_candidates rng (grid_dimension farm) generation phase row m.mask 0 coordinates
              m.mask

        covers : Covers m.mask used
        covers =
            occupy_candidates-Covers rng (grid_dimension farm) generation phase row m.mask 0
              coordinates m.mask (Covers-refl m.mask)

        first : Filling
        first = record { occupied = used; placed = length (placed_cells 1 used m.mask); draw = 0 }

        done : Filled m.mask farm.turbine_count (
            draw_cells rng
              (grid_dimension farm)
              generation
              (phase + 1)
              row
              rounds
              farm.turbine_count
              first)
        done =
            draw_cells-Filled rng (grid_dimension farm) generation (phase + 1) row rounds reaches
              m.mask farm.turbine_count (omega (arith, valid.turbines, valid.room)) m.long m.room
              rounds first (omega arith)
              (record { covers = covers; counted = length-placed_cells 1 used m.mask covers })
              (λ draw less. absurd (omega arith))

    repair_rows-Returns :
        (row : ℕ) (population : Matrix W)
        → All (λ coordinates. length coordinates ≡ farm.turbine_count) population
        → ReturnsPopulation farm
            (length population)
            (repair_rows rng rounds farm generation phase row population)
    unfolding repair_rows
    repair_rows-Returns row [] h = record {
      rows = [];
      returned = refl;
      population = record { layouts = tt; count = refl };
    }
    repair_rows-Returns row (coordinates ∷ population) (h, hs) =
        let first = repair_row-Repaired row coordinates h in
        let rest = repair_rows-Returns (suc row) population hs in
        record {
          rows = first.row ∷ rest.rows;
          returned = rw (first.returned, rest.returned);
          population = record {
            layouts = (first.layout, rest.population.layouts);
            count = ap suc rest.population.count;
          };
        }

    -- On an admitted case, and where the first draws of each row reach every cell of the grid
    -- within a number of rounds, `repair_population` of the other optimizers returns on rows of one
    -- coordinate per turbine, although its filling loop has no limit of its own. It returns as many
    -- rows as it was given, and each of them is a feasible layout.
    pub repair_population-Repairs :
        (population : Matrix W)
        → All (λ coordinates. length coordinates ≡ farm.turbine_count) population
        → ReturnsPopulation farm
            (length population)
            (repair_population rng rounds farm generation phase population)
    unfolding repair_population
    repair_population-Repairs population h = repair_rows-Returns 0 population h
