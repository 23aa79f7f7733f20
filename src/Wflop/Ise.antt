-- ===== src/Wflop/Ise.antt =====
-- `optimize_ise` of hpc/wflop_cpp/src/algorithms.cpp: spherical evolution on a few coordinates of each
-- layout. `draws` turns the seed of the runtime into the generator; `rounds` is the fuel of the
-- repair's filling loop, the budget that of the main loop.
pub mod Exact
pub mod Reported
mod Examples
use Prim.Native.Char.{code}
use fode_hpc_wflop.Base.{
  ℕ, zero, suc, ◌+◌, ◌-◌, min, max, pos, pos_part, Bool, true, not, ◌&&◌, List, [], ◌∷◌, map, ltb,
  leb, ◌==◌, if◌then◌else◌, take, get_or, set, range, keep_if, Result, ok, err, out_of_fuel, ◌>>=◌,
}
use fode_hpc_wflop.Base.Sort.{stable_sort}
use fode_hpc_wflop.Text.{chars}
use fode_hpc_wflop.Case.{CaseData}
use fode_hpc_wflop.Double.{Double, ◌⊕◌, ◌⊖◌, ◌⊗◌, ◌⊘◌, nought, unity, sum_from}
use fode_hpc_wflop.Rng.{CounterRng}
use fode_hpc_wflop.Rng.Generator.{Generator, key, draw_uniform}
use fode_hpc_wflop.Fode.Grid.{Matrix}
use fode_hpc_wflop.Fode.Accept.{accepted_flags, replace_accepted}
use fode_hpc_wflop.Wflop.Dispatch.{RunConfig}
use fode_hpc_wflop.Wflop.Runtime.{Runtime, runtime, evaluate}
use fode_hpc_wflop.Wflop.Population.{initialize_population, repair_population}
use fode_hpc_wflop.Wflop.Finish.{finish_result}
use fode_hpc_wflop.Wflop.Report.{RunResult}

pub record Search (W : Type 0) : Type 0 where
  pub population : Matrix W
  pub fitness : List W
  pub runtime : Runtime W

module _ {W : Type 0} ⦃D : Double W⦄ where
  -- `value *= std::sin(angle)` for each angle
  sines : W → List W → W
  sines value [] = value
  sines value (angle ∷ angles) = sines (value ⊗ D.sin angle) angles

  -- The coordinates of the direction behind the first.
  later_directions : List W → List W
  unfolding sines
  later_directions [] = []
  later_directions (angle ∷ []) = D.cos angle ∷ []
  later_directions (angle ∷ next ∷ angles) =
      sines (D.cos angle) (next ∷ angles) ∷ later_directions (next ∷ angles)

  -- The point of the sphere with these angles, one coordinate more than angles.
  direction_of : List W → List W
  unfolding later_directions
  direction_of [] = unity ∷ []
  direction_of (angle ∷ angles) = sines unity (angle ∷ angles) ∷ later_directions (angle ∷ angles)

  -- The loop that writes the new coordinates, over the coordinates and the direction.
  move_row : List W → W → List ℕ → List W → List W → List W
  move_row base radius (d ∷ coordinates) (x ∷ direction) row =
      move_row base radius coordinates direction
        (set row d (get_or base d nought ⊕ D.literal 100 1 ⊗ radius ⊗ x))
  move_row base radius _ _ row = row

  reduced_dimension : CaseData W → ℕ
  reduced_dimension farm =
      max 1 (pos_part (D.round_int (D.of_int (pos farm.turbine_count) ⊘ D.literal 30 1)))

  module _ (rng : Generator) (farm : CaseData W) (generation : ℕ) where
    -- Numbers in the order of their draws in a phase.
    shuffled : ℕ → ℕ → List ℕ → List ℕ
    shuffled phase individual = stable_sort (λ lhs rhs.
        ltb (rng.uniform (key generation phase individual lhs 0))
          (rng.uniform (key generation phase individual rhs 0)))

    -- One task of the parallel loop: the row of one offspring.
    unfoldable pub offspring_row : Matrix W → ℕ → ℕ → List W
    unfolding move_row shuffled direction_of reduced_dimension
    offspring_row population population_size individual =
        let pool =
          shuffled 110 individual (keep_if (λ c. not (c == individual)) (range population_size)) in
        let parent = λ (k : ℕ). get_or population (get_or pool k 0) [] in
        let reduced = reduced_dimension farm in
        let coordinates = take reduced (shuffled 111 individual (range farm.turbine_count)) in
        let difference = λ (d : ℕ). get_or (parent 1) d nought ⊖ get_or (parent 2) d nought in
        let radius =
          D.sqrt (sum_from nought (map (λ d. difference d ⊗ difference d) coordinates)) in
        let angles =
          map (λ a. D.literal 20 1 ⊗ D.pi ⊗ draw_uniform rng (key generation 112 individual a 0))
            (range (reduced - 1)) in
        move_row (parent 0) radius coordinates (direction_of angles)
          (get_or population individual [])

  module _ (rng : Generator) (rounds : ℕ) (farm : CaseData W) (population_size : ℕ) where
    -- The selection: an offspring that is better takes the place of its parent.
    abbrev pub select : Search W → Matrix W → List W → Runtime W → Search W
    select s offspring fitness r =
        let better = accepted_flags fitness s.fitness in
        record {
          population = replace_accepted better offspring s.population;
          fitness = replace_accepted better fitness s.fitness;
          runtime = r;
        }

    -- The body of the main loop.
    unfoldable pub generation_of : Search W → Result (Search W)
    unfolding offspring_row
    generation_of s = do
      let r = record s.runtime { generations = s.runtime.generations + 1 }
      let offspring_count = min population_size (r.budget - r.fes)
      let offspring =
          map (offspring_row rng farm r.generations s.population population_size)
            (range offspring_count)
      repaired ← repair_population rng rounds farm r.generations 113 offspring
      evaluated ← evaluate farm r repaired offspring_count true
      ok (select s repaired evaluated.0 evaluated.1)

    -- `while (runtime.fes < runtime.budget && population_size >= 4)`
    unfoldable pub generations_of : ℕ → Search W → Result (Search W)
    generations_of zero s = err out_of_fuel
    generations_of (suc fuel) s =
        let next = generation_of s >>= λ t. generations_of fuel t in
        if ltb s.runtime.fes s.runtime.budget && leb 4 population_size then next else ok s

  unfoldable pub optimize_ise :
      (CounterRng → Generator)
      → ℕ
      → CaseData W
      → RunConfig
      → (total evaluator : W) → Result (RunResult W)
  unfolding generations_of
  optimize_ise draws rounds farm config total evaluator = do
    r ←
        runtime (map code (chars config.algorithm_id)) config.seed config.physical_fes_budget
          config.workers
    let rng = draws r.rng
    let population_size = min 5 r.budget
    let population = initialize_population rng population_size farm 100
    initial ← evaluate farm r population population_size true
    final ←
        generations_of rng rounds farm population_size (suc config.physical_fes_budget)
          (record { population = population; fitness = initial.0; runtime = initial.1 })
    finish_result farm config final.runtime population_size population_size total evaluator []
