-- ===== src/Fode/Optimize/Exact.antt =====
-- A run of `optimize_fode_hpc`: it returns, with exactly its budget spent and a feasible layout.
use fode_hpc_wflop.Base.{
  ◌==◌, sym, subst, leb→le, leb, if◌then◌else◌, Bool-cases, length, get_or, length-map, All-get_or,
  pos, ltb_ℤ, Result, ok, ℕ, zero, suc, ◌+◌, ◌-◌, ◌≤◌, ◌<◌, min, max, ◌≡◌, refl, ◌∙◌, inl, inr,
  true, false, ◌||◌, List, [], ◌∷◌, map, arith,
}
use fode_hpc_wflop.Case.{CaseData}
use fode_hpc_wflop.Double.{Double}
use fode_hpc_wflop.Double.Laws.{IsExact, HasSigns, NotNegative}
use fode_hpc_wflop.Rng.Generator.{Generator}
use fode_hpc_wflop.Farm.Fused.{layout_fitness}
use fode_hpc_wflop.Farm.Evaluate.{evaluate_population_hpc}
use fode_hpc_wflop.Farm.Evaluate.Feasible.{evaluate_population_hpc_ok}
use fode_hpc_wflop.Fode.Grid.{IsCase, IsLayoutRow, ReturnsPopulation}
use fode_hpc_wflop.Fode.Initialize.{initialize_population}
use fode_hpc_wflop.Fode.Initialize.Feasible.{initialize_population-Returns}
use fode_hpc_wflop.Fode.State.{State, RunConfig, RunResult}
use fode_hpc_wflop.Fode.Sample.Total.{Accepts}
use fode_hpc_wflop.Fode.Survivors.Count.{IsAligned}
use fode_hpc_wflop.Fode.Accept.Keeps.{IsLayout, IsLayout-of_row}
use fode_hpc_wflop.Fode.Generation.{generation_step}
use fode_hpc_wflop.Fode.Generation.Kept.{IsState}
use fode_hpc_wflop.Fode.Generation.Step.{Moved, generation_step-Moved}
use fode_hpc_wflop.Fode.Optimize.{
  first_state, result_of, initial_population_size, initial_best, index_of_max, no_history, start,
  main_loop, optimize_fode_hpc,
}

-- The end of the main loop.
record Finished {W : Type 0} ⦃D : Double W⦄ (farm : CaseData W) (initial total : ℕ)
    (r : Result (State W)) : Type 0 where
  state : State W
  returned : r ≡ ok state
  kept : IsState farm initial state
  exact : state.physical_fes ≡ total

record Started {W : Type 0} ⦃D : Double W⦄ (farm : CaseData W) (initial : ℕ) (r : Result (State W))
    : Type 0 where
  state : State W
  returned : r ≡ ok state
  kept : IsState farm initial state
  physical : state.physical_fes ≡ initial
  legacy : state.legacy_fes ≡ 0
  size : state.population_size ≡ initial

-- A run that returns: what it has spent, and the layout that it has found.
pub record Optimized {W : Type 0} ⦃D : Double W⦄ (farm : CaseData W) (config : RunConfig)
    (r : Result (RunResult W)) : Type 0 where
  pub result : RunResult W
  pub returned : r ≡ ok result
  pub team : result.observed_workers ≡ config.workers
  pub spent :
      result.physical_fes
      ≡ max config.physical_fes_budget (initial_population_size farm.turbine_count)
  pub layout : IsLayout farm result.best_layout_1based
  pub final_low : 3 ≤ result.final_population
  pub final_high : result.final_population ≤ result.initial_population

index_of_max-lt :
    {W : Type 0} ⦃D : Double W⦄ (found : ℕ) (best : W) (i : ℕ) (xs : List W)
    → found < i
    → index_of_max found best i xs < i + length xs
unfolding index_of_max
index_of_max-lt found best i [] h = omega arith
index_of_max-lt ⦃D⦄ found best i (x ∷ xs) h =
    let chosen : (if D.lt best x then i else found) < suc i = ground arith in
    omega (
      arith,
      index_of_max-lt (if D.lt best x then i else found) (if D.lt best x then x else best) (suc i)
          xs chosen,
    )

initial_best-lt :
    {W : Type 0} ⦃D : Double W⦄ (fitness : List W)
    → 0 < length fitness
    → initial_best fitness < length fitness
unfolding initial_best
initial_best-lt [] h = absurd (omega arith)
initial_best-lt (x ∷ xs) h = omega (arith, index_of_max-lt 0 x 1 xs (omega arith))

module _ {W : Type 0} ⦃D : Double W⦄ (exact : IsExact D) (signs : HasSigns W) (rng : Generator)
    (rounds : ℕ) (accepts : Accepts W rng rounds) (farm : CaseData W) (valid : IsCase farm)
    (budget : ℕ) where
  main_loop-Finished :
      (initial minimum fuel : ℕ) (s : State W)
      → 3 ≤ minimum
      → IsState farm initial s
      → s.legacy_fes ≤ s.physical_fes
      → s.physical_fes ≤ budget
      → budget - s.physical_fes < fuel
      → Finished farm initial budget (main_loop rng rounds farm budget initial minimum fuel s)
  unfolding main_loop
  main_loop-Finished initial minimum zero s m v legacy within h = absurd (omega arith)
  main_loop-Finished initial minimum (suc fuel) s m v legacy within h =
      elim (Bool-cases (leb budget s.legacy_fes || leb budget s.physical_fes)) [
        | inl done ↦ rw done (record { state = s; returned = refl; kept = v; exact = ground arith })
        | inr more ↦
            let p = move more in
            let rest =
              main_loop-Finished initial minimum fuel p.progress.state m p.kept p.legacy p.within
                (omega (arith, p.more)) in
            rw more (elim (Bool-cases p.progress.going) [
              | inl going ↦ record {
                state = rest.state;
                returned = rw (p.returned, going) rest.returned;
                kept = rest.kept;
                exact = rest.exact;
              }
              | inr stopped ↦ record {
                state = p.progress.state;
                returned = rw (p.returned, stopped);
                kept = p.kept;
                exact = p.stopped stopped;
              }
            ])
      ]
    where
      left :
          (leb budget s.legacy_fes || leb budget s.physical_fes) ≡ false → s.physical_fes < budget
      left e = ground arith

      move :
          (leb budget s.legacy_fes || leb budget s.physical_fes) ≡ false
          → Moved farm budget initial s.physical_fes
              (generation_step rng rounds farm budget initial minimum s)
      move e =
          generation_step-Moved exact signs rng rounds accepts farm valid budget initial minimum s m
            v legacy (left e)

  start-Started :
      Started farm (initial_population_size farm.turbine_count) (start rng rounds farm budget)
  unfolding start first_state no_history
  start-Started = record {
    state = first_state rng rounds farm budget size first.rows fitness;
    returned = rw (first.returned, evaluated);
    kept = record {
      rows = first.population.count;
      values = long;
      large = omega arith;
      small = omega arith;
      memory = record { long = refl; signed = (half, (half, (half, (half, (half, tt))))) };
      dp = record { h1 = empty; h2 = empty; h3 = empty; h4 = empty };
      da = record { h1 = empty; h2 = empty; h3 = empty; h4 = empty };
      best = IsLayout-of_row exact farm valid (get_or first.rows (initial_best fitness) []) (
          All-get_or (IsLayoutRow farm) first.rows (initial_best fitness) []
            first.population.layouts
            (omega (
              arith,
              initial_best-lt fitness (omega (arith, long)),
              long,
              first.population.count,
            )));
    };
    physical = refl;
    legacy = refl;
    size = refl;
  }
    where
      size : ℕ
      size = initial_population_size farm.turbine_count

      first : ReturnsPopulation farm size (initialize_population rng size farm)
      first = initialize_population-Returns rng farm size valid

      fitness : List W
      fitness = map (layout_fitness farm) first.rows

      evaluated : evaluate_population_hpc farm first.rows size ≡ ok fitness
      evaluated =
          evaluate_population_hpc_ok exact farm valid first.rows size first.population (omega arith)

      long : length fitness ≡ size
      long = length-map (layout_fitness farm) first.rows ∙ first.population.count

      half : NotNegative (D.literal 5 1)
      half = signs.literal 5 1

      empty : IsAligned {W = W} size []
      empty = record { aligned = inl refl }

  -- A budget that the initial population has used up stops the loop at once.
  main_loop-spent :
      (initial minimum fuel : ℕ) (s : State W)
      → budget ≤ s.physical_fes
      → main_loop rng rounds farm budget initial minimum (suc fuel) s ≡ ok s
  unfolding main_loop
  main_loop-spent initial minimum fuel s h =
      let stop : (leb budget s.legacy_fes || leb budget s.physical_fes) ≡ true = ground arith in
      rw stop

  final-Finished :
      (s : Started farm (initial_population_size farm.turbine_count) (start rng rounds farm budget))
      → Finished farm s.state.population_size
          (max budget (initial_population_size farm.turbine_count))
          (main_loop rng rounds farm budget s.state.population_size
            (min 4 s.state.population_size)
            (suc budget)
            s.state)
  final-Finished s = elim (Bool-cases (leb budget s.state.physical_fes)) [
    | inl used ↦
        rw
          (main_loop-spent s.state.population_size (min 4 s.state.population_size) budget s.state
            (leb→le _ _ used))
          (record {
            state = s.state;
            returned = refl;
            kept = own;
            exact = omega (arith, leb→le _ _ used, s.physical);
          })
    | inr left ↦
        let f =
          main_loop-Finished s.state.population_size (min 4 s.state.population_size) (suc budget)
            s.state (omega (arith, s.kept.large)) own (omega (arith, s.legacy)) (ground arith)
            (omega arith) in
        record {
          state = f.state;
          returned = f.returned;
          kept = f.kept;
          exact = f.exact ∙ ground (arith, s.physical);
        }
  ]
    where
      own : IsState farm s.state.population_size s.state
      own = subst (λ n. IsState farm n s.state) (sym s.size) s.kept

module _ {W : Type 0} ⦃D : Double W⦄ (exact : IsExact D) (signs : HasSigns W) (rng : Generator)
    (rounds : ℕ) (accepts : Accepts W rng rounds) (farm : CaseData W) (valid : IsCase farm) where
  -- A run of `optimize_fode_hpc` on an admitted case, with a positive budget and a worker at least,
  -- doubles that hold every int exactly and respect signs, and draws that pass the rejection tests
  -- within a number of rounds, returns: the budget is fuel enough. It has then spent exactly its
  -- budget of physical evaluations, or the initial population where that is larger; its layout is a
  -- feasible layout of the case; it reports the workers that it was given; and its final population
  -- is between three and the initial one.
  pub optimize_fode_hpc-Optimized :
      (config : RunConfig)
      → 0 < config.physical_fes_budget
      → ltb_ℤ config.workers (pos 1) ≡ false
      → Optimized farm config (optimize_fode_hpc rng rounds farm config)
  unfolding optimize_fode_hpc
  optimize_fode_hpc-Optimized config h w =
      let admitted : (config.physical_fes_budget == 0 || ltb_ℤ config.workers (pos 1)) ≡ false =
        ground arith in
      let s = start-Started exact signs rng rounds accepts farm valid config.physical_fes_budget in
      let f =
        final-Finished exact signs rng rounds accepts farm valid config.physical_fes_budget s in
      record {
        result = result_of farm config s.state f.state;
        returned = rw (admitted, s.returned, f.returned);
        team = refl;
        spent = f.exact;
        layout = f.kept.best;
        final_low = f.kept.large;
        final_high = f.kept.small;
      }
