-- ===== src/Fode/Generation.antt =====
-- One round of the main loop of `optimize_fode_hpc`, in the order of its stages.
pub mod Kept
pub mod Reduced
pub mod Step
use fode_hpc_wflop.Base.{
  ℕ, ◌+◌, ◌-◌, ◌/◌, Bool, true, false, List, [], ◌∷◌, ◌++◌, map, ltb, leb, if◌then◌else◌, length,
  get_or, take, range, replicate, min, max, Result, ok, ◌>>=◌, ℤ, pos, pos_part, sub_ℕ, ltb_ℤ,
}
use fode_hpc_wflop.Case.{CaseData}
use fode_hpc_wflop.Double.{Double, ◌⊕◌, ◌⊖◌, ◌⊗◌, ◌⊘◌, nought, unity}
use fode_hpc_wflop.Farm.Evaluate.{evaluate_population_hpc}
use fode_hpc_wflop.Rng.Generator.{Generator, key, draw_uniform}
use fode_hpc_wflop.Fode.Phase
use fode_hpc_wflop.Fode.Grid.{Matrix, grid_dimension}
use fode_hpc_wflop.Fode.Repair.{repair_population}
use fode_hpc_wflop.Fode.Archive.{update_archive}
use fode_hpc_wflop.Fode.Survivors.{ranking, survivor_rows, retain_rows}
use fode_hpc_wflop.Fode.State.{State, History}
use fode_hpc_wflop.Fode.Sample.{Sample, sample_all}
use fode_hpc_wflop.Fode.Trial.{Trial, trials, entry}
use fode_hpc_wflop.Fode.Accept.{
  track_best, accepted_flags, differences, replace_accepted, update_memory,
}

-- What the later stages of a round read of the earlier ones.
pub record Round (W : Type 0) : Type 0 where
  pub parent : Matrix W
  pub old_fitness : List W
  pub samples : List (Sample W)
  pub trial : Trial W
  pub candidate : Matrix W
  pub completed : ℕ
  pub children : List W
  pub pfit : W

-- A state, and whether the loop goes on from it.
pub record Progress (W : Type 0) : Type 0 where
  pub going : Bool
  pub state : State W

retain_history : {W : Type 0} → History W → List ℕ → ℕ → Result (History W)
retain_history h keep old_rows = do
  h1 ← retain_rows h.h1 keep old_rows
  h2 ← retain_rows h.h2 keep old_rows
  h3 ← retain_rows h.h3 keep old_rows
  h4 ← retain_rows h.h4 keep old_rows
  ok (record { h1 = h1; h2 = h2; h3 = h3; h4 = h4 })

module _ {W : Type 0} (D : Double W) where
  abbrev pub capacity_of : ℕ → ℤ
  capacity_of population_size =
      D.round_int (D.mul (D.literal 14 1) (D.of_int (pos population_size)))

  abbrev pbest_count_of : ℕ → ℕ
  pbest_count_of population_size =
      max (pos_part (D.round_int (D.mul (D.literal 11 2) (D.of_int (pos population_size))))) 2

module _ {W : Type 0} ⦃D : Double W⦄ where
  -- `*std::max_element(...)`, from the first element on
  max_from : W → List W → W
  max_from best [] = best
  max_from best (x ∷ xs) = max_from (if D.lt best x then x else best) xs

  max_element : List W → W
  unfolding max_from
  max_element [] = nought
  max_element (x ∷ xs) = max_from x xs

  -- `h4 = h3; h3 = h2; h2 = h1; h1 = current`
  push_history : Matrix W → History W → History W
  push_history current h = record { h1 = current; h2 = h.h1; h3 = h.h2; h4 = h.h3 }

  module _ (rng : Generator) (rounds : ℕ) (farm : CaseData W)
      (budget initial_size minimum : ℕ) where
    -- Sampling, trial vectors, repair.
    unfoldable pub breed : State W → Result (List (Sample W) × Trial W × Matrix W)
    unfolding ranking
    breed s = do
      let all = s.population ++ s.archive
      samples ←
          sample_all rng rounds s.generation s.memory_sf s.memory_cr (ranking s.fitness)
            (length all) (pbest_count_of D s.population_size) farm.turbine_count 0 s.population_size
      let trial =
          trials rng s.generation s.iteration s.population all s.dp s.da farm.turbine_count samples
      candidate ← repair_population rng farm trial.candidate s.generation 0
      ok (samples, trial, candidate)

    -- What the stages after the evaluation read, once the children's fitness is known.
    abbrev pub round_of : State W → List (Sample W) → Trial W → Matrix W → ℕ → List W → Round W
    unfolding max_element
    round_of s samples trial candidate completed children =
        let child_best = max_element children in
        record {
          parent = s.population;
          old_fitness = s.fitness;
          samples = samples;
          trial = trial;
          candidate = candidate;
          completed = completed;
          children = children;
          pfit =
              if D.eq s.best_fitness nought
              then D.minus_infinity
              else (s.best_fitness ⊖ child_best) ⊘ s.best_fitness;
        }

    abbrev pub tracked : State W → Matrix W → ℕ → List W → State W
    tracked s rows completed children =
        let best =
          track_best (record { best_fitness = s.best_fitness; best_layout = s.best_layout })
            children rows in
        record s {
          physical_fes = s.physical_fes + completed;
          best_fitness = best.best_fitness;
          best_layout = best.best_layout;
        }

    -- The children that the budget leaves room for are evaluated, and tracked.
    unfoldable pub evaluate_children : State W → Result (Round W × State W)
    unfolding breed
    evaluate_children s = do
      (samples, trial, candidate) ← breed s
      let completed = min s.population_size (budget - s.physical_fes)
      children ← evaluate_population_hpc farm (take completed candidate) completed
      ok (
        round_of s samples trial candidate completed children,
        tracked s (take completed candidate) completed children,
      )

    -- Selection: archive, population and fitness, memory, histories.
    unfoldable pub select : Round W → State W → State W
    unfolding push_history
    select r s =
        let accepted = accepted_flags r.children r.old_fitness in
        let memory =
          update_memory accepted (differences r.children r.old_fitness) r.samples (record {
            memory_sf = s.memory_sf;
            memory_cr = s.memory_cr;
            memory_position = s.memory_position;
          }) in
        record s {
          archive = update_archive rng s.archive r.parent accepted s.archive_capacity s.generation;
          population = replace_accepted accepted r.candidate s.population;
          fitness = replace_accepted accepted r.children s.fitness;
          memory_sf = memory.memory_sf;
          memory_cr = memory.memory_cr;
          memory_position = memory.memory_position;
          dp = push_history r.trial.dp_current s.dp;
          da = push_history r.trial.da_current s.da;
        }

    -- The size that the linear reduction plans for the evaluations so far.
    planned_population : ℕ → ℕ
    planned_population legacy_fes = max minimum (
        pos_part (
          D.round_int (
            D.of_int (pos initial_size)
            ⊕ D.of_int (sub_ℕ minimum initial_size)
              ⊘ D.of_int (pos budget)
              ⊗ D.of_int (pos legacy_fes))))

    shrink_archive : ℕ → Matrix W → ℤ → ℕ → Matrix W
    shrink_archive size archive capacity generation =
        if ltb_ℤ capacity (pos (length archive))
        then update_archive rng archive (replicate size (replicate farm.turbine_count nought))
            (replicate size false) capacity (generation + 1000000)
        else archive

    abbrev pub reduced : State W → ℕ → List ℕ → Matrix W → History W → History W → State W
    unfolding shrink_archive
    reduced s planned keep population dp da =
        let capacity = capacity_of D planned in
        record s {
          population = population;
          dp = dp;
          da = da;
          fitness = map (λ row. get_or s.fitness row nought) keep;
          population_size = planned;
          archive_capacity = capacity;
          archive = shrink_archive planned s.archive capacity s.generation;
        }

    -- Rows that do not survive leave the population and every state aligned with it.
    unfoldable pub reduce : State W → Result (State W)
    unfolding planned_population retain_history survivor_rows
    reduce s = do
      let planned = planned_population s.legacy_fes
      let keep = survivor_rows s.fitness planned
      let old = s.population_size
      let smaller = (do
        population ← retain_rows s.population keep old
        dp ← retain_history s.dp keep old
        da ← retain_history s.da keep old
        ok (reduced s planned keep population dp da))
      if ltb planned s.population_size then smaller else ok s

    -- `legacy_fes += count`, with the iterations that this completes
    abbrev pub count_legacy : ℕ → State W → State W
    count_legacy count s = record s {
      legacy_fes = s.legacy_fes + count;
      iteration = s.iteration + ((s.legacy_fes + count) / 120 - s.legacy_fes / 120);
    }

    local_value : Round W → State W → ℕ → W
    local_value r s d =
        let k = rng.integer 0 s.population_size (key s.generation Phase.local_k 0 d 0) in
        let source_last = s.population_size - 1 in
        let no_sample : Sample W = record {
          cr = nought;
          sf = nought;
          r1 = 0;
          r2 = 0;
          pbest_row = 0;
          jrand = 0;
        } in
        let mix = draw_uniform rng (key s.generation Phase.local_mix 0 d 0) in
        let value =
          if D.lt (get_or s.fitness k nought) (get_or s.fitness 0 nought)
          then mix ⊗ entry r.parent (get_or r.samples source_last no_sample).pbest_row d
            ⊕ (unity ⊖ mix) ⊗ D.of_int (get_or s.best_layout d (pos 0))
          else entry r.parent (get_or r.samples k no_sample).pbest_row d in
        if D.lt (draw_uniform rng (key s.generation Phase.local_mutation_flag 0 d 0))
          (D.literal 1 2)
        then D.of_int (pos (grid_dimension farm))
          ⊕ draw_uniform rng (key s.generation Phase.local_mutation_value 0 d 0)
            ⊗ D.of_int (sub_ℕ 1 (grid_dimension farm))
        else value

    -- The local search: one more layout, repaired and evaluated.
    unfoldable pub local_search : Round W → State W → Result (State W)
    unfolding local_value
    local_search r s = do
      repaired ←
          repair_population rng farm (map (local_value r s) (range farm.turbine_count) ∷ [])
            s.generation 100
      fitness ← evaluate_population_hpc farm repaired 1
      ok (count_legacy 1 (tracked s repaired 1 fitness))

    -- The rest of the round, after the reduction: the evaluations counted, the local search.
    after_reduction : Round W → State W → Result (Progress W)
    after_reduction r s =
        let counted = count_legacy s.population_size s in
        let searched =
          local_search r counted >>= λ found. ok (record { going = true; state = found }) in
        if leb budget counted.physical_fes
        then ok (record { going = false; state = counted })
        else (if D.lt r.pfit (D.literal 5 2)
            then searched
            else ok (record { going = true; state = counted }))

    -- The body of the loop, with its two `break`s.
    unfoldable pub generation_step : State W → Result (Progress W)
    unfolding after_reduction
    generation_step s = do
      (r, evaluated) ← evaluate_children (record s { generation = s.generation + 1 })
      let selected = select r evaluated
      let stop = ok (record { going = false; state = evaluated })
      let rest = reduce selected >>= after_reduction r
      if ltb r.completed s.population_size then stop else rest
