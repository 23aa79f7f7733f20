-- ===== src/Fode/Optimize.antt =====
-- `optimize_fode_hpc` of optimizer.cpp: the start, the main loop and the result. The clock, and with
-- it the profiling of phases, is left out.
pub mod Exact
use fode_hpc_wflop.Base.{
  ℕ, zero, suc, ◌+◌, ◌-◌, ◌||◌, List, [], ◌∷◌, map, leb, ◌==◌, if◌then◌else◌, get_or, replicate,
  min, max, Result, ok, err, invalid_argument, out_of_fuel, throw_if, ◌>>=◌, ◌>>◌, pos, ltb_ℤ,
}
use fode_hpc_wflop.Case.{CaseData}
use fode_hpc_wflop.Double.{Double, nought}
use fode_hpc_wflop.Farm.Evaluate.{evaluate_population_hpc}
use fode_hpc_wflop.Rng.Generator.{Generator}
use fode_hpc_wflop.Fode.Grid.{Matrix}
use fode_hpc_wflop.Fode.Initialize.{initialize_population}
use fode_hpc_wflop.Fode.State.{State, History, RunConfig, RunResult}
use fode_hpc_wflop.Fode.Sample.{memory_size}
use fode_hpc_wflop.Fode.Generation.{capacity_of, generation_step}

-- `max(abs(77 - dimension), 3)`
abbrev pub initial_population_size : ℕ → ℕ
initial_population_size dimension = max ((77 - dimension) + (dimension - 77)) 3

module _ {W : Type 0} ⦃D : Double W⦄ where
  no_history : History W
  no_history = record { h1 = []; h2 = []; h3 = []; h4 = [] }

  -- `std::distance(begin, max_element(...))`: the number of the first greatest
  index_of_max : ℕ → W → ℕ → List W → ℕ
  index_of_max found best i [] = found
  index_of_max found best i (x ∷ xs) =
      index_of_max (if D.lt best x then i else found) (if D.lt best x then x else best) (suc i) xs

  initial_best : List W → ℕ
  unfolding index_of_max
  initial_best [] = 0
  initial_best (x ∷ xs) = index_of_max 0 x 1 xs

  module _ (rng : Generator) (rounds : ℕ) (farm : CaseData W) (budget : ℕ) where
    -- The state before the first round: the initial population does not count as a find.
    abbrev pub first_state : ℕ → Matrix W → List W → State W
    unfolding no_history initial_best
    first_state size population fitness = record {
      population = population;
      population_size = size;
      fitness = fitness;
      best_fitness = nought;
      best_layout = map D.round_int (get_or population (initial_best fitness) []);
      memory_sf = replicate memory_size (D.literal 5 1);
      memory_cr = replicate memory_size (D.literal 5 1);
      memory_position = 0;
      archive = [];
      archive_capacity = capacity_of D size;
      dp = no_history;
      da = no_history;
      physical_fes = size;
      legacy_fes = 0;
      iteration = 1;
      generation = 0;
    }

    unfoldable pub start : Result (State W)
    start = do
      let size = initial_population_size farm.turbine_count
      population ← initialize_population rng size farm
      fitness ← evaluate_population_hpc farm population size
      ok (first_state size population fitness)

    -- The main loop, on fuel.
    unfoldable pub main_loop : ℕ → ℕ → ℕ → State W → Result (State W)
    main_loop initial minimum zero s = err out_of_fuel
    main_loop initial minimum (suc fuel) s =
        let next = generation_step rng rounds farm budget initial minimum s >>= λ p.
        (let rest = main_loop initial minimum fuel p.state in
          if p.going then rest else ok p.state) in
        if leb budget s.legacy_fes || leb budget s.physical_fes then ok s else next

  -- `result`, of the state before and after the loop
  abbrev pub result_of : CaseData W → RunConfig → State W → State W → RunResult W
  result_of farm config first final = record {
    case_id = farm.case_id;
    seed = config.seed;
    physical_fes = final.physical_fes;
    generations = final.generation;
    initial_population = first.population_size;
    final_population = final.population_size;
    requested_workers = config.workers;
    observed_workers = config.workers;
    best_expected_power_kw = final.best_fitness;
    best_layout_1based = final.best_layout;
  }

  -- The budget is fuel enough: each round spends some of it.
  unfoldable pub optimize_fode_hpc : Generator → ℕ → CaseData W → RunConfig → Result (RunResult W)
  unfolding start main_loop
  optimize_fode_hpc rng rounds farm config = do
    let budget = config.physical_fes_budget
    throw_if (budget == 0 || ltb_ℤ config.workers (pos 1))
        (invalid_argument "FES budget and workers must be positive")
    s ← start rng rounds farm budget
    let initial = s.population_size
    final ← main_loop rng rounds farm budget initial (min 4 initial) (suc budget) s
    ok (result_of farm config s final)
