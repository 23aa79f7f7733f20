-- ===== src/Fode/Repair/Feasible.antt =====
-- Repaired rows are feasible layouts.
use fode_hpc_wflop.Base.{
  All, ℕ, zero, suc, ◌+◌, ◌-◌, ◌*◌, ◌^◌, ◌≤◌, ◌≡◌, refl, ap, ◌∙◌, Bool, true, false, List, [], ◌∷◌,
  ◌++◌, length, set, get_or, arith, Result, ok, take, drop, map, pos, length-take, length-map,
  if◌then◌else◌, Bool-cases, inl, inr, ◌⊎◌,
}
use mathlib.Core.List.{append-nil}
use fode_hpc_wflop.Base.Sort.Laws.{Ascends, All-take, All-map_of}
use fode_hpc_wflop.Case.{CaseData}
use fode_hpc_wflop.Double.{Double}
use fode_hpc_wflop.Rng.Generator.{Generator}
use fode_hpc_wflop.Fode.Phase
use fode_hpc_wflop.Fode.Grid.{
  Matrix, grid_dimension, IsFree, IsCase, IsFeasible, IsLayoutRow, ReturnsPopulation,
}
use fode_hpc_wflop.Fode.Grid.Masks.{
  count_marks, Covers, Covers-refl, Covers-set, IsUnmarked, length-placed_cells,
  placed_cells-Ascends, placed_cells-IsUnmarked,
}
use fode_hpc_wflop.Fode.Grid.Unavailable.{unavailable_mask-HasMask, HasMask}
use fode_hpc_wflop.Fode.Repair.{
  repair_rows, repair_population, Filling, occupy_candidates, fill, placed_cells, overwrite,
  repair_row,
}
use fode_hpc_wflop.Fode.Repair.Fill.{IsFilling, Filled, fill-Filled, gap-lt}

Ascends-take :
    (previous n : ℕ) (cells : List ℕ) → Ascends previous cells → Ascends previous (take n cells)
Ascends-take previous zero cells h = tt
Ascends-take previous (suc n) [] h = tt
Ascends-take previous (suc n) (c ∷ cells) (h, hs) = (h, Ascends-take c n cells hs)

drop_all {ℓ} : {A : Type ℓ} (n : ℕ) (xs : List A) → length xs ≤ n → drop n xs ≡ []
drop_all zero [] h = refl
drop_all zero (x ∷ xs) h = absurd (omega arith)
drop_all (suc n) [] h = refl
drop_all (suc n) (x ∷ xs) h = drop_all n xs (omega arith)

count-le-of_Covers : (bs os : List Bool) → Covers bs os → count_marks bs ≤ count_marks os
count-le-of_Covers [] [] c = omega arith
count-le-of_Covers [] (o ∷ os) c = absurd c
count-le-of_Covers (b ∷ bs) [] c = absurd c
count-le-of_Covers (b ∷ bs) (o ∷ os) c = ground (arith, c.0, count-le-of_Covers bs os c.1)

module _ {W : Type 0} ⦃D : Double W⦄ (rng : Generator) where
  pub occupy_candidates-Covers :
      (grid generation phase individual : ℕ) (blocked : List Bool) (d : ℕ) (xs : List W)
      (os : List Bool)
      → Covers blocked os
      → Covers blocked (occupy_candidates rng grid generation phase individual blocked d xs os)
  unfolding occupy_candidates
  occupy_candidates-Covers grid generation phase individual blocked d [] os c = c
  occupy_candidates-Covers grid generation phase individual blocked d (x ∷ xs) os c =
      occupy_candidates-Covers grid generation phase individual blocked (suc d) xs _
        (kept _ (Bool-cases _))
    where
      kept :
          (i : ℕ)
          → (get_or blocked i false ≡ true) ⊎ (get_or blocked i false ≡ false)
          → Covers blocked (if get_or blocked i false then os else set os i true)
      kept i (inl e) = rw e c
      kept i (inr e) = rw e (Covers-set blocked os i c)

  abbrev start : CaseData W → List Bool → ℕ → ℕ → ℕ → List W → Filling
  start farm blocked generation phase individual row =
      let occupied =
        occupy_candidates rng (grid_dimension farm) generation phase individual blocked 0 row
          blocked in
      record { occupied = occupied; placed = count_marks occupied - count_marks blocked; draw = 0 }

  start-IsFilling :
      (farm : CaseData W) (blocked : List Bool) (generation phase individual : ℕ) (row : List W)
      → IsFilling blocked (start farm blocked generation phase individual row)
  start-IsFilling farm blocked generation phase individual row =
      let covers =
        occupy_candidates-Covers (grid_dimension farm) generation phase individual blocked 0 row
          blocked (Covers-refl blocked) in
      record { covers = covers; counted = omega (arith, count-le-of_Covers blocked _ covers) }

  -- What is written is a feasible layout, whenever enough cells are placed.
  pub written-IsFeasible :
      (farm : CaseData W) (m : HasMask farm) (occupied : List Bool) (placed : ℕ)
      → Covers m.mask occupied
      → placed + count_marks m.mask ≡ count_marks occupied
      → farm.turbine_count ≤ placed
      → IsFeasible farm (take farm.turbine_count (placed_cells 1 occupied m.mask))
  written-IsFeasible farm m occupied placed covers counted enough = record {
    complete = omega (
      arith,
      length-take farm.turbine_count (placed_cells 1 occupied m.mask),
      length-placed_cells 1 occupied m.mask covers,
    );
    ascends =
        Ascends-take 0 farm.turbine_count _
          (placed_cells-Ascends 0 1 occupied m.mask (omega arith));
    free = All-take (IsFree farm) farm.turbine_count _ (
        All-map_of (IsUnmarked 1 m.mask) (IsFree farm) m.sound _
          (placed_cells-IsUnmarked 1 occupied m.mask));
  }

  pub overwrite-IsLayoutRow :
      (farm : CaseData W) (row : List W) (cells : List ℕ)
      → length row ≡ farm.turbine_count
      → IsFeasible farm (take farm.turbine_count cells)
      → IsLayoutRow farm (overwrite rng farm row cells)
  unfolding overwrite
  overwrite-IsLayoutRow farm row cells long ok_cells = record {
    cells = take farm.turbine_count cells;
    spelled =
        ap (λ r. written ++ r)
          (drop_all (length written) row (
            omega
              (arith, long, ok_cells.complete, length-map of_cell (take farm.turbine_count cells))))
        ∙ append-nil written;
    feasible = ok_cells;
  }
    where
      of_cell : ℕ → W
      of_cell cell = D.of_int (pos cell)

      written : List W
      written = map of_cell (take farm.turbine_count cells)

  pub record Repaired (farm : CaseData W) (r : Result (List W)) : Type 0 where
    pub row : List W
    pub returned : r ≡ ok row
    pub layout : IsLayoutRow farm row

  pub repair_row-Repaired :
      (farm : CaseData W) (m : HasMask farm) (generation bias individual : ℕ) (row : List W)
      → IsCase farm
      → length row ≡ farm.turbine_count
      → Repaired farm (repair_row rng farm m.mask generation bias individual row)
  unfolding repair_row
  repair_row-Repaired farm m generation bias individual row valid long = record {
    row = overwrite rng farm row (placed_cells 1 done.result.occupied m.mask);
    returned = rw done.returned;
    layout = overwrite-IsLayoutRow farm row _ long (
        written-IsFeasible farm m done.result.occupied done.result.placed done.filling.covers
          done.filling.counted done.enough);
  }
    where
      first : Filling
      first = start farm m.mask generation (Phase.repair_bound + bias) individual row

      done : Filled m.mask farm.turbine_count (
          fill rng
            (grid_dimension farm)
            generation
            (Phase.repair_fill + bias)
            individual
            (2 ^ 64 * (farm.turbine_count + 1))
            farm.turbine_count
            first)
      done =
          fill-Filled rng (grid_dimension farm) generation (Phase.repair_fill + bias) individual
            m.mask farm.turbine_count _ first (omega (arith, valid.turbines, valid.room)) m.long
            m.room
            (start-IsFilling farm m.mask generation (Phase.repair_bound + bias) individual row)
            (omega arith) (omega (arith, gap-lt (grid_dimension farm) 0))

  repair_rows-Returns :
      (farm : CaseData W) (m : HasMask farm) (generation bias individual : ℕ) (rows : Matrix W)
      → IsCase farm
      → All (λ row. length row ≡ farm.turbine_count) rows
      → ReturnsPopulation farm
          (length rows)
          (repair_rows rng farm m.mask generation bias individual rows)
  unfolding repair_rows
  repair_rows-Returns farm m generation bias individual [] valid h = record {
    rows = [];
    returned = refl;
    population = record { layouts = tt; count = refl };
  }
  repair_rows-Returns farm m generation bias individual (row ∷ rows) valid (h, hs) =
      let first = repair_row-Repaired farm m generation bias individual row valid h in
      let rest = repair_rows-Returns farm m generation bias (suc individual) rows valid hs in
      record {
        rows = first.row ∷ rest.rows;
        returned = rw (first.returned, rest.returned);
        population = record {
          layouts = (first.layout, rest.population.layouts);
          count = ap suc rest.population.count;
        };
      }

  -- For every generator and every admitted case, `repair_population` returns on candidate rows of
  -- one coordinate per turbine: the fuel of the filling loop is enough, also where the int limit on
  -- its draws overflows, when overflow wraps in two's complement, and where the count of the draws
  -- wraps. It returns as many rows as it was given, and each of them is a feasible layout: as many
  -- cells as turbines, strictly ascending, on the grid, none of them unavailable.
  pub repair_population-Returns :
      (farm : CaseData W) (candidates : Matrix W) (generation phase_bias : ℕ)
      → IsCase farm
      → All (λ row. length row ≡ farm.turbine_count) candidates
      → ReturnsPopulation farm
          (length candidates)
          (repair_population rng farm candidates generation phase_bias)
  unfolding repair_population
  repair_population-Returns farm candidates generation phase_bias valid h =
      let m = unavailable_mask-HasMask farm valid in
      rw m.returned (repair_rows-Returns farm m generation phase_bias 0 candidates valid h)
