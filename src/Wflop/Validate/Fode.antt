-- ===== src/Wflop/Validate/Fode.antt =====
-- What `convert_fode` of hpc/wflop_cpp/src/algorithms.cpp returns, `validate_result` of
-- hpc/wflop_cpp/src/main.cpp accepts, up to the floating-point tests.
use fode_hpc_wflop.Base.{
  ℕ, zero, suc, ◌-◌, ◌<◌, ◌≤◌, ◌≡◌, ◌≢◌, refl, ap, ◌∙◌, ℤ, pos, ltb_ℤ, eqb_ℤ, Error, Bool, true,
  false, ◌||◌, ◌==◌, List, [], ◌∷◌, length, get_or, set, map, All, is_empty, get_or-set_ne,
  length-map, Result, ok, err, throw_if, ◌>>◌, replicate, arith,
}
use fode_hpc_wflop.Base.Sort.Laws.{Ascends}
use fode_hpc_wflop.Case.{CaseData}
use fode_hpc_wflop.Double.{Double}
use fode_hpc_wflop.Double.Laws.{IsExact, HasSigns}
use fode_hpc_wflop.Rng.Generator.{Generator}
use fode_hpc_wflop.Fode.Grid.{IsCase, IsFree, contains, grid_dimension}
use fode_hpc_wflop.Fode.Accept.Keeps.{IsLayout}
use fode_hpc_wflop.Fode.State
use fode_hpc_wflop.Fode.Sample.Total.{Accepts}
use fode_hpc_wflop.Text.{chars}
use fode_hpc_wflop.Fode.Optimize.{optimize_fode_hpc, initial_population_size}
use fode_hpc_wflop.Fode.Optimize.Exact.{Optimized, optimize_fode_hpc-Optimized}
use fode_hpc_wflop.Wflop.Registry.{
  algorithm_descriptor, find_algorithm, algorithm_descriptors, found, problem_descriptor,
  find_problem, problem_descriptors,
}
use fode_hpc_wflop.Wflop.Dispatch.{RunConfig}
use fode_hpc_wflop.Wflop.Runtime.{block_cells, blocked_mask}
use fode_hpc_wflop.Wflop.Report.{RunResult}
use fode_hpc_wflop.Wflop.Validate.{
  Seconds, infeasible, bad_numbers, text_eq, failure, validate_result, convert_fode,
}

-- The mask is clear at a cell that is not listed.
block_cells-clear :
    (cell : ℕ) (cells : List ℕ) (mask : List Bool)
    → 1 ≤ cell
    → All (λ c. 1 ≤ c) cells
    → contains cell cells ≡ false
    → get_or mask (cell - 1) false ≡ false
    → get_or (block_cells cells mask) (cell - 1) false ≡ false
unfolding block_cells contains
block_cells-clear cell [] mask h hs out clear = clear
block_cells-clear cell (c ∷ cells) mask h (k, ks) out clear =
    let apart : c - 1 ≢ cell - 1 = λ e. ground arith in
    block_cells-clear cell cells (set mask (c - 1) true) h ks (ground (arith, out))
      (get_or-set_ne mask (c - 1) (cell - 1) true false apart ∙ clear)

get_or-replicate : (n i : ℕ) → get_or (replicate n false) i false ≡ false
get_or-replicate zero i = refl
get_or-replicate (suc n) zero = refl
get_or-replicate (suc n) (suc i) = get_or-replicate n i

module _ {W : Type 0} (farm : CaseData W) (valid : IsCase farm) where
  positive :
      (cells : List ℕ)
      → All (λ cell. (1 ≤ cell) × (cell ≤ grid_dimension farm)) cells
      → All (λ c. 1 ≤ c) cells
  positive [] h = tt
  positive (c ∷ cells) (h, hs) = (h.0, positive cells hs)

  clear : (cell : ℕ) → IsFree farm cell → get_or (blocked_mask farm) (cell - 1) false ≡ false
  unfolding blocked_mask
  clear cell f =
      block_cells-clear cell farm.unavailable_cells_1based (replicate (grid_dimension farm) false)
        f.positive (positive farm.unavailable_cells_1based valid.cells) f.available
        (get_or-replicate (grid_dimension farm) (cell - 1))

  feasible :
      (previous : ℕ) (cells : List ℕ)
      → Ascends previous cells
      → All (IsFree farm) cells
      → infeasible (grid_dimension farm) (blocked_mask farm) (pos previous) (map pos cells) ≡ false
  unfolding infeasible
  feasible previous [] h free = refl
  feasible previous (c ∷ cells) (h, hs) (f, fs) =
      let low = f.positive in
      let high = f.on_grid in ground (arith, clear c f, feasible c cells hs fs)

not_empty : (layout : List ℤ) → 0 < length layout → is_empty layout ≡ false
not_empty [] h = absurd (omega arith)
not_empty (cell ∷ layout) h = refl

-- Nothing stands behind the check.
behind : (bad : Bool) (e : Error) → (throw_if bad e >> ok tt) ≡ throw_if bad e
behind true e = refl
behind false e = refl

-- The texts of a result are those of a registered run that is no swarm.
pub record Registered {W : Type 0} (r : RunResult W) : Type 0 where
  pub provenance : is_empty r.algorithm_provenance ≡ false
  pub semantics : is_empty r.effective_semantics_id ≡ false
  pub problem : is_empty r.problem_id ≡ false
  pub problem_semantics : is_empty r.problem_semantics_id ≡ false
  pub swarm :
      (text_eq r.algorithm_id (chars "agpso") || text_eq r.algorithm_id (chars "cgpso")) ≡ false
  pub hierarchical : text_eq r.algorithm_id (chars "hgpso") ≡ false

-- What is left of `validate_result` for such a result with the right budget and workers, and a
-- feasible layout.
pub judged :
    {W : Type 0} ⦃D : Double W⦄ (farm : CaseData W) (valid : IsCase farm) (r : RunResult W)
    (budget : ℕ) (workers : ℤ)
    → Registered r
    → r.physical_fes ≡ budget
    → r.observed_workers ≡ workers
    → IsLayout farm r.best_layout_1based
    → validate_result r farm budget workers
      ≡ throw_if (bad_numbers r) (failure r " returned an invalid best state")
unfolding validate_result
judged farm valid r budget workers texts fes team layout =
    let exactly : (r.physical_fes == budget) ≡ true = ground arith in
    let together : eqb_ℤ r.observed_workers workers ≡ true = ground arith in
    let count : length r.best_layout_1based ≡ farm.turbine_count =
      ap length layout.spelled ∙ length-map pos layout.cells ∙ layout.feasible.complete in
    let some' : is_empty r.best_layout_1based ≡ false =
      not_empty r.best_layout_1based (omega (arith, valid.turbines)) in
    let whole' : (length r.best_layout_1based == farm.turbine_count) ≡ true = ground arith in
    let good : infeasible (grid_dimension farm) (blocked_mask farm) (pos 0) r.best_layout_1based
        ≡ false =
      ap (infeasible (grid_dimension farm) (blocked_mask farm) (pos 0)) layout.spelled
      ∙ feasible farm valid 0 layout.cells layout.feasible.ascends layout.feasible.free in
    rw
      (
        exactly, together, some', texts.provenance, texts.semantics, texts.problem,
        texts.problem_semantics, whole', good, texts.swarm, texts.hierarchical,
      )
      (behind (bad_numbers r) _)

-- The result has passed all tests but those of its floating-point numbers.
pub record Reported {W : Type 0} ⦃D : Double W⦄ (farm : CaseData W) (config : RunConfig)
    (r : Result (RunResult W)) : Type 0 where
  pub result : RunResult W
  pub returned : r ≡ ok result
  pub judged :
      validate_result result farm config.physical_fes_budget config.workers
      ≡ throw_if (bad_numbers result) (failure result " returned an invalid best state")

-- The result is refused for what it has spent.
pub record Overspent {W : Type 0} ⦃D : Double W⦄ (farm : CaseData W) (config : RunConfig)
    (r : Result (RunResult W)) : Type 0 where
  pub result : RunResult W
  pub returned : r ≡ ok result
  pub refused :
      validate_result result farm config.physical_fes_budget config.workers
      ≡ err (failure result " did not stop at the exact physical FES")

-- The texts that the registry gives to FODE.
abbrev record_of : {W : Type 0} → State.RunResult W → Seconds W → RunResult W
record_of source seconds = record {
  algorithm_id = chars "fode";
  method_id = chars "FODE_CPP_HPC_FULL";
  algorithm_provenance = chars "archived_matlab_source";
  effective_semantics_id = chars "fode_e0_physical_fes";
  problem_id = chars "fode_e0_common";
  problem_semantics_id = chars "fode_wflop_e0_legacy_v1";
  case_id = chars source.case_id;
  seed = source.seed;
  physical_fes = source.physical_fes;
  generations = source.generations;
  initial_population = source.initial_population;
  final_population = source.final_population;
  requested_workers = source.requested_workers;
  observed_workers = source.observed_workers;
  best_expected_power_kw = source.best_expected_power_kw;
  best_layout_1based = source.best_layout_1based;
  total_seconds = seconds.total;
  evaluator_seconds = seconds.evaluator;
  algorithm_seconds = seconds.algorithm;
  pso_update_semantics = [];
}

module _ {W : Type 0} ⦃D : Double W⦄ (exact : IsExact D) (signs : HasSigns W) (rng : Generator)
    (rounds : ℕ) (accepts : Accepts W rng rounds) (farm : CaseData W) (valid : IsCase farm) where
  -- The run that `convert_fode` makes.
  abbrev inner : RunConfig → State.RunConfig
  inner config = record {
    seed = config.seed;
    physical_fes_budget = config.physical_fes_budget;
    workers = config.workers;
  }

  converted :
      (config : RunConfig) (seconds : Seconds W)
      → 0 < config.physical_fes_budget
      → ltb_ℤ config.workers (pos 1) ≡ false
      → config.problem_id ≡ "fode_e0_common"
      → (o : Optimized farm (inner config) (optimize_fode_hpc rng rounds farm (inner config)))
        × (convert_fode rng rounds farm config seconds ≡ ok (record_of o.result seconds))
  unfolding convert_fode algorithm_descriptor find_algorithm algorithm_descriptors found
      problem_descriptor find_problem problem_descriptors
  converted config seconds h w e =
      let o =
        optimize_fode_hpc-Optimized exact signs rng rounds accepts farm valid (inner config) h w in
      (o, rw (o.returned, e) refl)

  -- On an admitted case, with a budget of at least the initial population, a worker at least, the
  -- common problem, doubles that hold every int exactly and respect signs, and draws that pass the
  -- rejection tests within a number of rounds, `convert_fode` returns, and `validate_result` judges
  -- the result by its floating-point numbers alone: budget, workers, texts, length and feasibility
  -- of the layout all pass.
  pub convert_fode-Reported :
      (config : RunConfig) (seconds : Seconds W)
      → initial_population_size farm.turbine_count ≤ config.physical_fes_budget
      → ltb_ℤ config.workers (pos 1) ≡ false
      → config.problem_id ≡ "fode_e0_common"
      → Reported farm config (convert_fode rng rounds farm config seconds)
  convert_fode-Reported config seconds h w e =
      let (o, returned) = converted config seconds (omega arith) w e in
      record {
        result = record_of o.result seconds;
        returned = returned;
        judged =
            judged farm valid (record_of o.result seconds) config.physical_fes_budget config.workers
              (record {
                provenance = refl;
                semantics = refl;
                problem = refl;
                problem_semantics = refl;
                swarm = refl;
                hierarchical = refl;
              })
              (omega (arith, o.spent)) o.team o.layout;
      }

  -- On an admitted case, with a positive budget below the initial population, a worker at least,
  -- the common problem, doubles that hold every int exactly and respect signs, and draws that pass
  -- the rejection tests within a number of rounds, `convert_fode` returns, and `validate_result`
  -- refuses the result for the evaluations that it has spent.
  pub convert_fode-Overspent :
      (config : RunConfig) (seconds : Seconds W)
      → 0 < config.physical_fes_budget
      → config.physical_fes_budget < initial_population_size farm.turbine_count
      → ltb_ℤ config.workers (pos 1) ≡ false
      → config.problem_id ≡ "fode_e0_common"
      → Overspent farm config (convert_fode rng rounds farm config seconds)
  unfolding validate_result
  convert_fode-Overspent config seconds h less w e =
      let (o, returned) = converted config seconds h w e in
      let spent = o.spent in
      let inexact : (o.result.physical_fes == config.physical_fes_budget) ≡ false = ground arith in
      record { result = record_of o.result seconds; returned = returned; refused = rw inexact refl }
