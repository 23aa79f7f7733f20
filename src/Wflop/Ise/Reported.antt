-- ===== src/Wflop/Ise/Reported.antt =====
-- What `optimize_ise` returns, `validate_result` accepts, up to the floating-point tests.
use Prim.Native.Char.{code}
use fode_hpc_wflop.Base.{
  ℕ, zero, suc, ◌+◌, ◌-◌, ◌<◌, ◌≡◌, refl, min, true, List, [], ◌∷◌, length, map, take, get_or, All,
  ok, if◌then◌else◌, arith, length-take, ltb_ℤ, pos,
}
use fode_hpc_wflop.Base.Sort.Laws.{All-take}
use fode_hpc_wflop.Text.{chars}
use fode_hpc_wflop.Case.{CaseData}
use fode_hpc_wflop.Double.{Double, ◌⊖◌, nought, max_double}
use fode_hpc_wflop.Double.Laws.{IsExact}
use fode_hpc_wflop.Rng.{CounterRng}
use fode_hpc_wflop.Rng.Generator.{Generator, Reaches}
use fode_hpc_wflop.Farm.Fused.{layout_fitness}
use fode_hpc_wflop.Fode.Grid.{Matrix, grid_dimension, IsCase, IsLayoutRow, IsPopulation}
use fode_hpc_wflop.Fode.Accept.{track_best}
use fode_hpc_wflop.Fode.Accept.Keeps.{IsLayout, IsLayout-of_row, track_best-IsLayout}
use fode_hpc_wflop.Wflop.Registry.{
  algorithm_descriptor, find_algorithm, algorithm_descriptors, found, problem_descriptor,
  find_problem, problem_descriptors,
}
use fode_hpc_wflop.Wflop.Dispatch.{RunConfig}
use fode_hpc_wflop.Wflop.Runtime.{Runtime, fresh_runtime, runtime, spend}
use fode_hpc_wflop.Executor.{worker_count}
use fode_hpc_wflop.Wflop.Runtime.Ledger.{evaluate-spend}
use fode_hpc_wflop.Wflop.Population.{initialize_population}
use fode_hpc_wflop.Wflop.Population.Feasible.{initialize_population-IsPopulation}
use fode_hpc_wflop.Wflop.Finish.{finish_result, to_upper}
use fode_hpc_wflop.Wflop.Report.{RunResult}
use fode_hpc_wflop.Wflop.Validate.Fode.{Reported, judged}
use fode_hpc_wflop.Wflop.Ise.{Search, generations_of, optimize_ise}
use fode_hpc_wflop.Wflop.Ise.Exact.{Kept, Finished, generations_of-Finished}

module _ {W : Type 0} ⦃D : Double W⦄ where
  -- The runtime of a run, and the generator that it draws from.
  abbrev pub fresh : RunConfig → Runtime W
  fresh config =
      fresh_runtime (map code (chars config.algorithm_id)) config.seed config.physical_fes_budget

  runtime_ok :
      (config : RunConfig)
      → ltb_ℤ (pos 0) config.workers ≡ true
      → runtime {W = W}
          (map code (chars config.algorithm_id))
          config.seed
          config.physical_fes_budget
          config.workers
        ≡ ok (fresh config)
  unfolding runtime worker_count
  runtime_ok config some_worker = rw some_worker refl

  abbrev pub first_row : Generator → CaseData W → List W
  first_row rng farm = get_or (initialize_population rng 1 farm 100) 0 []

  take-first_row :
      (rng : Generator) (farm : CaseData W) (size completed : ℕ)
      → 0 < size
      → 0 < completed
      → get_or (take completed (initialize_population rng size farm 100)) 0 [] ≡ first_row rng farm
  unfolding initialize_population
  take-first_row rng farm zero completed h k = absurd (omega arith)
  take-first_row rng farm (suc size) zero h k = absurd (omega arith)
  take-first_row rng farm (suc size) (suc completed) h k = refl

  abbrev ise_record : RunConfig → CaseData W → Runtime W → ℕ → (total evaluator : W) → RunResult W
  ise_record config farm r size total evaluator = record {
    algorithm_id = chars "ise";
    method_id = chars "ISE_CPP_HPC_FULL";
    algorithm_provenance = chars "paper_derived";
    effective_semantics_id = chars "ise_paper_derived_e0_physical_fes_v1";
    problem_id = chars "fode_e0_common";
    problem_semantics_id = chars "fode_wflop_e0_legacy_v1";
    case_id = chars farm.case_id;
    seed = config.seed;
    physical_fes = r.fes;
    generations = r.generations;
    initial_population = size;
    final_population = size;
    requested_workers = config.workers;
    observed_workers = config.workers;
    best_expected_power_kw = r.best;
    best_layout_1based = r.best_layout;
    total_seconds = total;
    evaluator_seconds = evaluator;
    algorithm_seconds = max_double nought (total ⊖ evaluator);
    pso_update_semantics = [];
  }

  finish_result-ise :
      (farm : CaseData W) (config : RunConfig) (r : Runtime W) (size : ℕ) (total evaluator : W)
      → config.algorithm_id ≡ "ise"
      → config.problem_id ≡ "fode_e0_common"
      → finish_result farm config r size size total evaluator []
        ≡ ok (ise_record config farm r size total evaluator)
  unfolding finish_result algorithm_descriptor find_algorithm algorithm_descriptors found
      problem_descriptor find_problem problem_descriptors to_upper
  finish_result-ise farm config r size total evaluator algorithm problem =
      rw (algorithm, problem) refl

module _ {W : Type 0} ⦃D : Double W⦄ (exact : IsExact D) (farm : CaseData W)
    (valid : IsCase farm) where
  -- A first power above minus infinity is a find.
  found_value :
      (value : W) (fitness : List W) (row : List W) (rows : Matrix W)
      → All (IsLayoutRow farm) (row ∷ rows)
      → D.lt D.minus_infinity value ≡ true
      → IsLayout farm
          (track_best
            (record { best_fitness = D.minus_infinity; best_layout = [] })
            (value ∷ fitness)
            (row ∷ rows)).best_layout
  unfolding track_best
  found_value value fitness row rows (l, ls) h =
      track_best-IsLayout exact farm valid
        (if D.lt D.minus_infinity value
          then record { best_fitness = value; best_layout = map D.round_int row }
          else record { best_fitness = D.minus_infinity; best_layout = [] })
        fitness rows (rw h (IsLayout-of_row exact farm valid row l)) ls

  found_first :
      (rows : Matrix W)
      → 0 < length rows
      → All (IsLayoutRow farm) rows
      → D.lt D.minus_infinity (layout_fitness farm (get_or rows 0 [])) ≡ true
      → IsLayout farm
          (track_best
            (record { best_fitness = D.minus_infinity; best_layout = [] })
            (map (layout_fitness farm) rows)
            rows).best_layout
  found_first [] some_rows l h = absurd (omega arith)
  found_first (row ∷ rows) some_rows l h =
      found_value (layout_fitness farm row) (map (layout_fitness farm) rows) row rows l h

module _ {W : Type 0} ⦃D : Double W⦄ (exact : IsExact D) (draws : CounterRng → Generator)
    (rounds : ℕ) (farm : CaseData W) (valid : IsCase farm) (config : RunConfig)
    (reaches : Reaches (draws (fresh {W = W} config).rng) rounds 1 (grid_dimension farm + 1)) where
  abbrev rng : Generator
  rng = draws (fresh {W = W} config).rng

  abbrev budget : ℕ
  budget = config.physical_fes_budget

  abbrev size : ℕ
  size = min 5 budget

  abbrev population : Matrix W
  population = initialize_population rng size farm 100

  abbrev prefix : Matrix W
  prefix = take (min size (budget - 0)) population

  abbrev first_search : Search W
  first_search = record {
    population = population;
    fitness = map (layout_fitness farm) prefix;
    runtime =
        spend (fresh {W = W} config) prefix (min size (budget - 0))
          (map (layout_fitness farm) prefix) true;
  }

  abbrev PowerAbove : Type 0
  PowerAbove = D.lt D.minus_infinity (layout_fitness farm (first_row rng farm)) ≡ true

  rows : IsPopulation farm size population
  rows = initialize_population-IsPopulation rng farm valid size 100

  first_search-Kept :
      0 < budget → PowerAbove → Kept exact rng rounds farm valid reaches size budget first_search
  first_search-Kept some_budget power = record {
    population = rows;
    best =
        found_first exact farm valid prefix
          (omega (arith, length-take (min size (budget - 0)) population, rows.count))
          (All-take (IsLayoutRow farm) (min size (budget - 0)) population rows.layouts)
          (rw (take-first_row rng farm size (min size (budget - 0)) (omega arith) (omega arith))
            power);
    within = omega arith;
    paid_from = refl;
  }

  finished :
      0 < budget
      → PowerAbove
      → Finished exact rng rounds farm valid reaches size budget
          (generations_of rng rounds farm size (suc budget) first_search)
  finished some_budget power =
      generations_of-Finished exact rng rounds farm valid reaches size budget (suc budget)
        first_search (omega arith) (λ few. omega arith) (omega arith)
        (first_search-Kept some_budget power)

  -- On an admitted case, with a positive budget, a worker at least, the common problem, doubles that hold every int
  -- exactly, first draws of each row that reach every cell of the grid within a number of rounds,
  -- and a first initial layout whose power is above minus infinity, `optimize_ise` returns, and
  -- `validate_result` judges the result by its floating-point numbers alone: it has spent exactly
  -- its budget, whatever that is, and budget, workers, texts, length and feasibility of the layout
  -- all pass.
  pub optimize_ise-Reported :
      (total evaluator : W)
      → 0 < budget
      → ltb_ℤ (pos 0) config.workers ≡ true
      → config.algorithm_id ≡ "ise"
      → config.problem_id ≡ "fode_e0_common"
      → PowerAbove
      → Reported farm config (optimize_ise draws rounds farm config total evaluator)
  unfolding optimize_ise
  optimize_ise-Reported total evaluator some_budget some_worker algorithm problem power = record {
    result = ise_record config farm done.state.runtime size total evaluator;
    returned = rw (runtime_ok config some_worker) (
        rw
          (evaluate-spend exact farm valid (fresh {W = W} config) population size true (omega arith)
            some_budget rows)
          (rw done.returned (
            finish_result-ise farm config done.state.runtime size total evaluator algorithm
              problem)));
    judged =
        judged farm valid _ budget config.workers
          (record {
            provenance = refl;
            semantics = refl;
            problem = refl;
            problem_semantics = refl;
            swarm = refl;
            hierarchical = refl;
          })
          done.exact_budget refl done.kept.best;
  }
    where
      done :
          Finished exact rng rounds farm valid reaches size budget
            (generations_of rng rounds farm size (suc budget) first_search)
      done = finished some_budget power
