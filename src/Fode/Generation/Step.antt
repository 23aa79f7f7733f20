-- ===== src/Fode/Generation/Step.antt =====
-- A whole round: it returns, it spends evaluations, and it stays within the budget.
use fode_hpc_wflop.Base.{
  ltb, ltb→lt, leb, leb→le, Bool-cases, range, length-map, length-range_from, Result, ok, ℕ, ◌+◌,
  ◌≤◌, ◌<◌, ◌≡◌, refl, ◌∙◌, inl, inr, true, false, List, [], ◌∷◌, map, arith,
}
use fode_hpc_wflop.Fode.Generation.{
  Round, evaluate_children, select, reduce, generation_step, Progress, tracked, local_value,
  local_search, count_legacy, after_reduction,
}
use fode_hpc_wflop.Fode.Generation.Kept.{
  Evaluated, evaluate_children-Evaluated, select-IsState, IsState,
}
use fode_hpc_wflop.Fode.Generation.Reduced.{Reduced, reduce-Reduced}
use fode_hpc_wflop.Case.{CaseData}
use fode_hpc_wflop.Double.{Double}
use fode_hpc_wflop.Double.Laws.{IsExact, HasSigns}
use fode_hpc_wflop.Rng.Generator.{Generator}
use fode_hpc_wflop.Farm.Fused.{layout_fitness}
use fode_hpc_wflop.Farm.Evaluate.{evaluate_population_hpc}
use fode_hpc_wflop.Farm.Evaluate.Feasible.{evaluate_population_hpc_ok}
use fode_hpc_wflop.Fode.Grid.{IsCase, ReturnsPopulation}
use fode_hpc_wflop.Fode.Repair.{repair_population}
use fode_hpc_wflop.Fode.Repair.Feasible.{repair_population-Returns}
use fode_hpc_wflop.Fode.State.{State}
use fode_hpc_wflop.Fode.Sample.Total.{Accepts}
use fode_hpc_wflop.Fode.Accept.Keeps.{track_best-IsLayout}

-- The state after a round that started with `spent` evaluations.
pub record Moved {W : Type 0} ⦃D : Double W⦄ (farm : CaseData W) (budget initial spent : ℕ)
    (r : Result (Progress W)) : Type 0 where
  pub progress : Progress W
  pub returned : r ≡ ok progress
  pub kept : IsState farm initial progress.state
  pub more : spent < progress.state.physical_fes
  pub within : progress.state.physical_fes ≤ budget
  pub legacy : progress.state.legacy_fes ≤ progress.state.physical_fes
  pub stopped : progress.going ≡ false → progress.state.physical_fes ≡ budget

record Searched {W : Type 0} ⦃D : Double W⦄ (farm : CaseData W) (initial : ℕ) (s : State W)
    (r : Result (State W)) : Type 0 where
  state : State W
  returned : r ≡ ok state
  kept : IsState farm initial state
  physical : state.physical_fes ≡ s.physical_fes + 1
  legacy : state.legacy_fes ≡ s.legacy_fes + 1

module _ {W : Type 0} ⦃D : Double W⦄ (exact : IsExact D) (signs : HasSigns W) (rng : Generator)
    (rounds : ℕ) (accepts : Accepts W rng rounds) (farm : CaseData W) (valid : IsCase farm)
    (budget initial minimum : ℕ) where
  local_search-Searched :
      (r : Round W) (s : State W)
      → IsState farm initial s
      → Searched farm initial s (local_search rng rounds farm budget initial minimum r s)
  unfolding local_search
  local_search-Searched r s v = record {
    state =
        count_legacy rng rounds farm budget initial minimum 1
          (tracked rng rounds farm budget initial minimum s repaired.rows 1 values);
    returned = rw (repaired.returned, evaluated);
    kept = record {
      rows = v.rows;
      values = v.values;
      large = v.large;
      small = v.small;
      memory = v.memory;
      dp = v.dp;
      da = v.da;
      best =
          track_best-IsLayout exact farm valid _ values repaired.rows v.best
            repaired.population.layouts;
    };
    physical = refl;
    legacy = refl;
  }
    where
      row : List W
      row = map (local_value rng rounds farm budget initial minimum r s) (range farm.turbine_count)

      repaired : ReturnsPopulation farm 1 (repair_population rng farm (row ∷ []) s.generation 100)
      repaired =
          repair_population-Returns rng farm (row ∷ []) s.generation 100 valid
            (length-map _ (range farm.turbine_count) ∙ length-range_from 0 farm.turbine_count, tt)

      values : List W
      values = map (layout_fitness farm) repaired.rows

      evaluated : evaluate_population_hpc farm repaired.rows 1 ≡ ok values
      evaluated =
          evaluate_population_hpc_ok exact farm valid repaired.rows 1 repaired.population
            (omega arith)

  counted : State W → State W
  counted s = count_legacy rng rounds farm budget initial minimum s.population_size s

  counted-IsState : (s : State W) → IsState farm initial s → IsState farm initial (counted s)
  unfolding counted
  counted-IsState s v = record {
    rows = v.rows;
    values = v.values;
    large = v.large;
    small = v.small;
    memory = v.memory;
    dp = v.dp;
    da = v.da;
    best = v.best;
  }

  after_reduction-Moved :
      (r : Round W) (s : State W) (spent : ℕ)
      → IsState farm initial s
      → s.legacy_fes + s.population_size ≤ s.physical_fes
      → spent < s.physical_fes
      → s.physical_fes ≤ budget
      → Moved farm budget initial spent (after_reduction rng rounds farm budget initial minimum r s)
  unfolding after_reduction counted
  after_reduction-Moved r s spent v legacy more within =
      elim (Bool-cases (leb budget s.physical_fes)) [
        | inl used ↦ rw used (record {
          progress = record { going = false; state = counted s };
          returned = refl;
          kept = counted-IsState s v;
          more = more;
          within = within;
          legacy = legacy;
          stopped = λ _. omega (arith, leb→le _ _ used);
        })
        | inr left ↦ elim (Bool-cases (D.lt r.pfit (D.literal 5 2))) [
          | inl poor ↦
              rw (left, poor)
                (record {
                  progress = record { going = true; state = searched.state };
                  returned = rw searched.returned;
                  kept = searched.kept;
                  more = omega (arith, searched.physical);
                  within = omega (arith, searched.physical, not_used left);
                  legacy = omega (arith, searched.physical, searched.legacy);
                  stopped = λ e. ground arith;
                })
          | inr good ↦
              rw (left, good)
                (record {
                  progress = record { going = true; state = counted s };
                  returned = refl;
                  kept = counted-IsState s v;
                  more = more;
                  within = within;
                  legacy = legacy;
                  stopped = λ e. ground arith;
                })
        ]
      ]
    where
      searched :
          Searched farm initial
            (counted s)
            (local_search rng rounds farm budget initial minimum r (counted s))
      searched = local_search-Searched r (counted s) (counted-IsState s v)

      not_used : leb budget s.physical_fes ≡ false → s.physical_fes < budget
      not_used e = ground arith

  -- Selection leaves the counts alone.
  record SameCounts (a b : State W) : Type 0 where
    physical : a.physical_fes ≡ b.physical_fes
    legacy : a.legacy_fes ≡ b.legacy_fes
    size : a.population_size ≡ b.population_size

  select-SameCounts :
      (r : Round W) (s : State W) → SameCounts (select rng rounds farm budget initial minimum r s) s
  unfolding select
  select-SameCounts r s = record { physical = refl; legacy = refl; size = refl }

  -- On an admitted case, with doubles that hold every int exactly and respect signs, draws that
  -- pass the rejection tests within a number of rounds and a minimum of at least three rows, a
  -- round of the main loop returns from a well-formed state that is below its budget and whose
  -- legacy count does not pass the physical one. It spends at least one evaluation and stays within
  -- the budget; the state is well formed again, the legacy count does not pass the physical one,
  -- and a round that ends the loop has spent the budget.
  pub generation_step-Moved :
      (s : State W)
      → 3 ≤ minimum
      → IsState farm initial s
      → s.legacy_fes ≤ s.physical_fes
      → s.physical_fes < budget
      → Moved farm budget initial s.physical_fes
          (generation_step rng rounds farm budget initial minimum s)
  unfolding generation_step
  generation_step-Moved s m v legacy left =
      elim (Bool-cases (ltb e.round.completed s.population_size)) [
        | inl short ↦ record {
          progress = record { going = false; state = e.state };
          returned = rw (e.returned, short);
          kept = e.kept;
          more = omega (arith, e.spent, e.completed, v.large);
          within = omega (arith, e.spent, e.completed);
          legacy = omega (arith, e.spent, e.same_legacy);
          stopped = λ _. omega (arith, e.spent, e.completed, ltb→lt _ _ short);
        }
        | inr whole ↦
            let rest =
              after_reduction-Moved e.round reduced.state s.physical_fes reduced.kept (fits whole)
                (omega (arith, spends whole, v.large))
                (omega (arith, spends whole, all_completed whole, e.completed)) in
            record {
              progress = rest.progress;
              returned = rw (e.returned, whole, reduced.returned) rest.returned;
              kept = rest.kept;
              more = rest.more;
              within = rest.within;
              legacy = rest.legacy;
              stopped = rest.stopped;
            }
      ]
    where
      next : State W
      next = record s { generation = s.generation + 1 }

      next_state : IsState farm initial next
      next_state = record {
        rows = v.rows;
        values = v.values;
        large = v.large;
        small = v.small;
        memory = v.memory;
        dp = v.dp;
        da = v.da;
        best = v.best;
      }

      e :
          Evaluated farm budget initial next
            (evaluate_children rng rounds farm budget initial minimum next)
      e =
          evaluate_children-Evaluated exact signs rng rounds accepts farm valid budget initial
            minimum next next_state left

      selected : State W
      selected = select rng rounds farm budget initial minimum e.round e.state

      reduced :
          Reduced farm initial selected (reduce rng rounds farm budget initial minimum selected)
      reduced = reduce-Reduced rng rounds farm budget initial minimum selected m (
          select-IsState exact signs rng rounds accepts farm valid budget initial minimum e.round
            e.state e.kept e.signed e.shape)

      all_completed :
          ltb e.round.completed s.population_size ≡ false → e.round.completed ≡ s.population_size
      all_completed f = ground (arith, e.completed)

      same : SameCounts selected e.state
      same = select-SameCounts e.round e.state

      spends :
          ltb e.round.completed s.population_size ≡ false
          → reduced.state.physical_fes ≡ s.physical_fes + s.population_size
      spends f = omega (arith, reduced.same_physical, same.physical, e.spent, all_completed f)

      fits :
          ltb e.round.completed s.population_size ≡ false
          → reduced.state.legacy_fes + reduced.state.population_size ≤ reduced.state.physical_fes
      fits f = omega (
        arith,
        spends f,
        reduced.same_legacy,
        reduced.not_larger,
        e.same_legacy,
        e.same_size,
        same.legacy,
        same.size,
        legacy,
      )
