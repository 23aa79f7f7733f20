-- ===== src/Fode/Generation/Kept.antt =====
-- The stages of a round up to the selection: they return, and they keep the state well formed.
use fode_hpc_wflop.Fode.Generation.{
  round_of, tracked, evaluate_population_hpc, Round, breed, evaluate_children, select, push_history,
  pbest_count_of,
}
use fode_hpc_wflop.Base.{
  length, take, All, length-append, length-take, Result, ok, ℕ, ◌+◌, ◌-◌, ◌≤◌, ◌<◌, min, ◌≡◌, refl,
  ◌∙◌, subst, inr, List, ◌++◌, map, arith,
}
use fode_hpc_wflop.Case.{CaseData}
use fode_hpc_wflop.Double.{Double}
use fode_hpc_wflop.Double.Laws.{IsExact, HasSigns, NotNegative}
use fode_hpc_wflop.Base.Sort.Laws.{All-take}
use fode_hpc_wflop.Rng.Generator.{Generator}
use fode_hpc_wflop.Farm.Evaluate.Feasible.{evaluate_population_hpc_ok}
use fode_hpc_wflop.Fode.Grid.{Matrix, IsCase, IsLayoutRow, IsPopulation, ReturnsPopulation}
use fode_hpc_wflop.Fode.Repair.{repair_population}
use fode_hpc_wflop.Fode.Repair.Feasible.{repair_population-Returns}
use fode_hpc_wflop.Farm.Fused.{layout_fitness}
use fode_hpc_wflop.Fode.State.{State, History}
use fode_hpc_wflop.Fode.Survivors.{ranking}
use fode_hpc_wflop.Fode.Survivors.Count.{IsAligned, length-ranking}
use fode_hpc_wflop.Fode.Sample.{Sample, sample_all, memory_size}
use fode_hpc_wflop.Fode.Sample.Total.{Accepts}
use fode_hpc_wflop.Fode.Sample.Whole.{SampledAll, sample_all-SampledAll, AreSamples-signs}
use fode_hpc_wflop.Fode.Trial.{Trial, trials}
use fode_hpc_wflop.Fode.Trial.Shape.{HasShape, trials-HasShape}
use fode_hpc_wflop.Fode.Accept.Keeps.{
  IsLayout, IsMemory, track_best-IsLayout, update_memory-IsMemory, length-replace_accepted,
}

-- Four matrices that are empty or have a row for each individual.
pub record IsHistory {W : Type 0} (size : ℕ) (h : History W) : Type 0 where
  pub h1 : IsAligned size h.h1
  pub h2 : IsAligned size h.h2
  pub h3 : IsAligned size h.h3
  pub h4 : IsAligned size h.h4

-- A state that the loop can go on from: everything that is aligned with the population has its size,
-- which is between three and the initial one, and the best layout is feasible.
pub record IsState {W : Type 0} ⦃D : Double W⦄ (farm : CaseData W) (initial : ℕ) (s : State W)
    : Type 0 where
  pub rows : length s.population ≡ s.population_size
  pub values : length s.fitness ≡ s.population_size
  pub large : 3 ≤ s.population_size
  pub small : s.population_size ≤ initial
  pub memory : IsMemory memory_size s.memory_sf
  pub dp : IsHistory s.population_size s.dp
  pub da : IsHistory s.population_size s.da
  pub best : IsLayout farm s.best_layout

-- The children of a state: a feasible layout for each individual.
record Bred {W : Type 0} ⦃D : Double W⦄ (farm : CaseData W) (size : ℕ)
    (r : Result (List (Sample W) × Trial W × Matrix W)) : Type 0 where
  samples : List (Sample W)
  trial : Trial W
  candidate : Matrix W
  returned : r ≡ ok (samples, trial, candidate)
  signed : All (λ s. NotNegative s.sf) samples
  shape : HasShape size farm.turbine_count trial
  feasible : IsPopulation farm size candidate

pub record Evaluated {W : Type 0} ⦃D : Double W⦄ (farm : CaseData W) (budget initial : ℕ)
    (s : State W) (r : Result (Round W × State W)) : Type 0 where
  pub round : Round W
  pub state : State W
  pub returned : r ≡ ok (round, state)
  pub completed : round.completed ≡ min s.population_size (budget - s.physical_fes)
  pub spent : state.physical_fes ≡ s.physical_fes + round.completed
  pub same_size : state.population_size ≡ s.population_size
  pub same_legacy : state.legacy_fes ≡ s.legacy_fes
  pub kept : IsState farm initial state
  pub signed : All (λ s. NotNegative s.sf) round.samples
  pub shape : HasShape state.population_size farm.turbine_count round.trial

module _ {W : Type 0} ⦃D : Double W⦄ (exact : IsExact D) (signs : HasSigns W) (rng : Generator)
    (rounds : ℕ) (accepts : Accepts W rng rounds) (farm : CaseData W) (valid : IsCase farm)
    (budget initial minimum : ℕ) where
  breed-Bred :
      (s : State W)
      → IsState farm initial s
      → Bred farm s.population_size (breed rng rounds farm budget initial minimum s)
  unfolding breed
  breed-Bred s v = record {
    samples = sampled.samples;
    trial = trial;
    candidate = repaired.rows;
    returned = rw (sampled.returned, repaired.returned);
    signed = AreSamples-signs _ _ _ 0 sampled.samples sampled.valid;
    shape = shape;
    feasible = record {
      layouts = repaired.population.layouts;
      count = repaired.population.count ∙ shape.rows;
    };
  }
    where
      all : Matrix W
      all = s.population ++ s.archive

      sampled :
          SampledAll
            (length (ranking s.fitness))
            (length all)
            farm.turbine_count
            0
            s.population_size
            (sample_all rng rounds s.generation s.memory_sf s.memory_cr
              (ranking s.fitness)
              (length all)
              (pbest_count_of D s.population_size)
              farm.turbine_count
              0
              s.population_size)
      sampled =
          sample_all-SampledAll signs rng rounds s.generation accepts s.memory_sf s.memory_cr
            (ranking s.fitness) (length all) (pbest_count_of D s.population_size) farm.turbine_count
            0 s.population_size v.memory.signed v.memory.long
            (omega (arith, length-ranking s.fitness, v.values, v.large))
            (omega (arith, length-append s.population s.archive, v.rows, v.large)) valid.turbines

      trial : Trial W
      trial =
          trials rng s.generation s.iteration s.population all s.dp s.da farm.turbine_count
            sampled.samples

      shape : HasShape s.population_size farm.turbine_count trial
      shape =
          subst (λ n. HasShape n farm.turbine_count trial) sampled.counted
            (trials-HasShape rng s.generation s.iteration s.population all s.dp s.da
              farm.turbine_count sampled.samples)

      repaired :
          ReturnsPopulation farm
            (length trial.candidate)
            (repair_population rng farm trial.candidate s.generation 0)
      repaired =
          repair_population-Returns rng farm trial.candidate s.generation 0 valid shape.columns

  pub evaluate_children-Evaluated :
      (s : State W)
      → IsState farm initial s
      → s.physical_fes < budget
      → Evaluated farm budget initial s (evaluate_children rng rounds farm budget initial minimum s)
  unfolding evaluate_children round_of
  evaluate_children-Evaluated s v h = record {
    round =
        round_of rng rounds farm budget initial minimum s bred.samples bred.trial bred.candidate
          completed children;
    state =
        tracked rng rounds farm budget initial minimum s (take completed bred.candidate) completed
          children;
    returned = rw (bred.returned, evaluated);
    completed = refl;
    spent = refl;
    same_size = refl;
    same_legacy = refl;
    kept = record {
      rows = v.rows;
      values = v.values;
      large = v.large;
      small = v.small;
      memory = v.memory;
      dp = v.dp;
      da = v.da;
      best =
          track_best-IsLayout exact farm valid _ _ (take completed bred.candidate) v.best
            front.layouts;
    };
    signed = bred.signed;
    shape = bred.shape;
  }
    where
      bred : Bred farm s.population_size (breed rng rounds farm budget initial minimum s)
      bred = breed-Bred s v

      completed : ℕ
      completed = min s.population_size (budget - s.physical_fes)

      children : List W
      children = map (layout_fitness farm) (take completed bred.candidate)

      front : IsPopulation farm completed (take completed bred.candidate)
      front = record {
        layouts = All-take (IsLayoutRow farm) completed bred.candidate bred.feasible.layouts;
        count = omega (arith, length-take completed bred.candidate, bred.feasible.count);
      }

      evaluated :
          evaluate_population_hpc farm (take completed bred.candidate) completed ≡ ok children
      evaluated =
          evaluate_population_hpc_ok exact farm valid (take completed bred.candidate) completed
            front (omega (arith, v.large))

  pub select-IsState :
      (r : Round W) (s : State W)
      → IsState farm initial s
      → All (λ x. NotNegative x.sf) r.samples
      → HasShape s.population_size farm.turbine_count r.trial
      → IsState farm initial (select rng rounds farm budget initial minimum r s)
  unfolding select push_history
  select-IsState r s v signed shape = record {
    rows = length-replace_accepted _ r.candidate s.population ∙ v.rows;
    values = length-replace_accepted _ r.children s.fitness ∙ v.values;
    large = v.large;
    small = v.small;
    memory =
        update_memory-IsMemory signs memory_size _ r.children r.old_fitness r.samples _ signed
          v.memory;
    dp = record {
      h1 = record { aligned = inr shape.dp_rows };
      h2 = v.dp.h1;
      h3 = v.dp.h2;
      h4 = v.dp.h3;
    };
    da = record {
      h1 = record { aligned = inr shape.da_rows };
      h2 = v.da.h1;
      h3 = v.da.h2;
      h4 = v.da.h3;
    };
    best = v.best;
  }
