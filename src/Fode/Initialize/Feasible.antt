-- ===== src/Fode/Initialize/Feasible.antt =====
-- The initial population of an admitted case consists of feasible layouts.
use fode_hpc_wflop.Base.{
  ℕ, zero, suc, ◌+◌, ◌≤◌, ◌<◌, ◌≡◌, ◌≢◌, refl, ap, ◌∙◌, Bool, true, false, List, [], ◌∷◌, length,
  arith, ltb, All, take, map, pos, length-take, length-map, range, range_from, length-range_from,
}
use fode_hpc_wflop.Base.Sort.{stable_sort, length-stable_sort}
use fode_hpc_wflop.Base.Sort.Laws.{
  Ascends, All-take, All-map, All-map_of, stable_sort-All, stable_sort-DistinctBy, DistinctBy,
  DistinctBy-map, Distinct, Distinct-take, stable_sort-Climbs, Climbs, Climbs-Distinct,
}
use fode_hpc_wflop.Case.{CaseData}
use fode_hpc_wflop.Double.{Double}
use fode_hpc_wflop.Rng.Generator.{Generator}
use fode_hpc_wflop.Fode.Phase
use fode_hpc_wflop.Fode.Grid.{
  free_cells, IsFree, IsCase, IsFeasible, IsLayoutRow, IsPopulation, ReturnsPopulation,
}
use fode_hpc_wflop.Fode.Grid.Masks.{count_marks, IsUnmarked, IsUnmarked-first, All-IsUnmarked-cons}
use fode_hpc_wflop.Fode.Grid.Unavailable.{HasMask, unavailable_mask-HasMask}
use fode_hpc_wflop.Fode.Initialize.{key_before, keyed_from, selected, initialize_population}

free_cells-IsUnmarked : (cell : ℕ) (bs : List Bool) → All (IsUnmarked cell bs) (free_cells cell bs)
unfolding free_cells
free_cells-IsUnmarked cell [] = tt
free_cells-IsUnmarked cell (true ∷ bs) =
    All-IsUnmarked-cons cell true bs _ (free_cells-IsUnmarked (suc cell) bs)
free_cells-IsUnmarked cell (false ∷ bs) = (
  IsUnmarked-first cell bs,
  All-IsUnmarked-cons cell false bs _ (free_cells-IsUnmarked (suc cell) bs),
)

length-free_cells :
    (cell : ℕ) (bs : List Bool) → length (free_cells cell bs) + count_marks bs ≡ length bs
unfolding free_cells
length-free_cells cell [] = refl
length-free_cells cell (b ∷ bs) = ground (arith, length-free_cells (suc cell) bs)

free_cells-Ascends :
    (previous cell : ℕ) (bs : List Bool) → previous < cell → Ascends previous (free_cells cell bs)
unfolding free_cells
free_cells-Ascends previous cell [] h = tt
free_cells-Ascends previous cell (true ∷ bs) h =
    free_cells-Ascends previous (suc cell) bs (omega arith)
free_cells-Ascends previous cell (false ∷ bs) h =
    (h, free_cells-Ascends cell (suc cell) bs (omega arith))

abbrev second : ℕ × ℕ → ℕ
second k = k.1

module _ (rng : Generator) where
  keyed_from-All :
      (P : ℕ → Type 0) (phase individual i : ℕ) (cells : List ℕ)
      → All P cells
      → All (λ k. P (second k)) (keyed_from rng phase individual i cells)
  unfolding keyed_from
  keyed_from-All P phase individual i [] h = tt
  keyed_from-All P phase individual i (c ∷ cells) (h, hs) =
      (h, keyed_from-All P phase individual (suc i) cells hs)

  keyed_from-DistinctBy :
      (phase individual i : ℕ) (cells : List ℕ)
      → Distinct cells
      → DistinctBy second (keyed_from rng phase individual i cells)
  unfolding keyed_from
  keyed_from-DistinctBy phase individual i [] d = tt
  keyed_from-DistinctBy phase individual i (c ∷ cells) (h, d) = (
    keyed_from-All (λ y. y ≢ c) phase individual (suc i) cells h,
    keyed_from-DistinctBy phase individual (suc i) cells d,
  )

  length-keyed_from :
      (phase individual i : ℕ) (cells : List ℕ)
      → length (keyed_from rng phase individual i cells) ≡ length cells
  unfolding keyed_from
  length-keyed_from phase individual i [] = refl
  length-keyed_from phase individual i (c ∷ cells) =
      ap suc (length-keyed_from phase individual (suc i) cells)

  module _ (phase : ℕ) (available : List ℕ) (dimension individual : ℕ) where
    abbrev keyed : List (ℕ × ℕ)
    keyed = stable_sort key_before (keyed_from rng phase individual 0 available)

    abbrev pub drawn : List ℕ
    drawn = take dimension (map second keyed)

    pub length-drawn : dimension ≤ length available → length drawn ≡ dimension
    length-drawn h = omega (
      arith,
      length-take dimension (map second keyed),
      length-map second keyed,
      length-stable_sort key_before (keyed_from rng phase individual 0 available),
      length-keyed_from phase individual 0 available,
    )

    pub drawn-All : (P : ℕ → Type 0) → All P available → All P drawn
    drawn-All P h = All-take P dimension (map second keyed) (
        All-map P second keyed (
          stable_sort-All key_before (λ k. P (second k)) _
            (keyed_from-All P phase individual 0 available h)))

    pub drawn-Distinct : Distinct available → Distinct drawn
    drawn-Distinct d = Distinct-take dimension (map second keyed) (
        DistinctBy-map second keyed (
          stable_sort-DistinctBy key_before second _
            (keyed_from-DistinctBy phase individual 0 available d)))

    pub length-selected :
        dimension ≤ length available
        → length (selected rng phase available dimension individual) ≡ dimension
    unfolding selected
    length-selected h = length-stable_sort ltb drawn ∙ length-drawn h

    pub selected-All :
        (P : ℕ → Type 0)
        → All P available
        → All P (selected rng phase available dimension individual)
    unfolding selected
    selected-All P h = stable_sort-All ltb P _ (drawn-All P h)

    pub selected-Climbs :
        (low : ℕ)
        → All (λ c. low ≤ c) available
        → Distinct available
        → Climbs low (selected rng phase available dimension individual)
    unfolding selected
    selected-Climbs low h d =
        stable_sort-Climbs low _ (drawn-All (λ c. low ≤ c) h) (drawn-Distinct d)

  selected-IsFeasible :
      {W : Type 0} (farm : CaseData W) (m : HasMask farm) (phase individual : ℕ)
      → IsFeasible farm (selected rng phase (free_cells 1 m.mask) farm.turbine_count individual)
  selected-IsFeasible farm m phase individual = record {
    complete =
        length-selected phase available farm.turbine_count individual
          (omega (arith, m.room, length-free_cells 1 m.mask));
    ascends =
        selected-Climbs phase available farm.turbine_count individual 1
          (All-map_of (IsUnmarked 1 m.mask) (λ c. 1 ≤ c) (λ c u. u.above) available unmarked)
          (Climbs-Distinct 1 available (free_cells-Ascends 0 1 m.mask (omega arith)));
    free =
        selected-All phase available farm.turbine_count individual (IsFree farm)
          (All-map_of (IsUnmarked 1 m.mask) (IsFree farm) m.sound available unmarked);
  }
    where
      available : List ℕ
      available = free_cells 1 m.mask

      unmarked : All (IsUnmarked 1 m.mask) available
      unmarked = free_cells-IsUnmarked 1 m.mask

module _ {W : Type 0} ⦃D : Double W⦄ (rng : Generator) (farm : CaseData W) (m : HasMask farm)
    (phase : ℕ) where
  abbrev pub row_of : ℕ → List W
  row_of individual =
      map (λ cell. D.of_int (pos cell))
        (selected rng phase (free_cells 1 m.mask) farm.turbine_count individual)

  rows-layouts : (i n : ℕ) → All (IsLayoutRow farm) (map row_of (range_from i n))
  rows-layouts i zero = tt
  rows-layouts i (suc n) = (
    record { cells = _; spelled = refl; feasible = selected-IsFeasible rng farm m phase i },
    rows-layouts (suc i) n,
  )

  pub rows_of-IsPopulation :
      (population_size : ℕ) → IsPopulation farm population_size (map row_of (range population_size))
  rows_of-IsPopulation population_size = record {
    layouts = rows-layouts 0 population_size;
    count = length-map row_of (range population_size) ∙ length-range_from 0 population_size;
  }

-- For every generator and every admitted case, `initialize_population` returns as many rows as it
-- is asked for, and each of them is a feasible layout.
pub initialize_population-Returns :
    {W : Type 0} ⦃D : Double W⦄ (rng : Generator) (farm : CaseData W) (population_size : ℕ)
    → IsCase farm
    → ReturnsPopulation farm population_size (initialize_population rng population_size farm)
unfolding initialize_population
initialize_population-Returns rng farm population_size valid = record {
  rows = map (row_of rng farm m Phase.initial_key) (range population_size);
  returned =
      let enough : ltb (length (free_cells 1 m.mask)) farm.turbine_count ≡ false =
        ground (arith, m.room, length-free_cells 1 m.mask) in
      rw (m.returned) (rw enough);
  population = rows_of-IsPopulation rng farm m Phase.initial_key population_size;
}
  where
    m : HasMask farm
    m = unavailable_mask-HasMask farm valid
