-- ===== src/Wflop/Ise/Exact.antt =====
-- A run of `optimize_ise`: it spends its budget to the last evaluation and finds a feasible layout.
use fode_hpc_wflop.Base.{
  ℕ, zero, suc, ◌+◌, ◌-◌, ◌≤◌, ◌<◌, ◌≡◌, refl, ◌∙◌, min, ltb, leb, ◌&&◌, true, List, [], ◌∷◌,
  length, map, take, get_or, set, All, All-get_or, range, range_from, length-map, length-set,
  length-range_from, Bool-cases, inl, inr, Result, ok, arith,
}
use fode_hpc_wflop.Base.Sort.Laws.{All-take}
use fode_hpc_wflop.Case.{CaseData}
use fode_hpc_wflop.Double.{Double}
use fode_hpc_wflop.Double.Laws.{IsExact}
use fode_hpc_wflop.Rng.Generator.{Generator, Reaches}
use fode_hpc_wflop.Farm.Fused.{layout_fitness}
use fode_hpc_wflop.Farm.Evaluate.Feasible.{length-layout}
use fode_hpc_wflop.Fode.Grid.{
  Matrix, grid_dimension, IsCase, IsLayoutRow, IsPopulation, ReturnsPopulation,
}
use fode_hpc_wflop.Fode.Accept.{accepted_flags}
use fode_hpc_wflop.Fode.Accept.Keeps.{
  IsLayout, track_best-IsLayout, length-replace_accepted, replace_accepted-All,
}
use fode_hpc_wflop.Wflop.Runtime.{Runtime, spend}
use fode_hpc_wflop.Wflop.Runtime.Ledger.{evaluate-spend}
use fode_hpc_wflop.Wflop.Population.{repair_population}
use fode_hpc_wflop.Wflop.Population.Feasible.{repair_population-Repairs}
use fode_hpc_wflop.Wflop.Ise.{
  Search, move_row, offspring_row, select, generation_of, generations_of,
}

All-map_range {ℓ κ} :
    {A : Type ℓ} (P : A → Type κ) (f : ℕ → A) (first count bound : ℕ)
    → first + count ≤ bound
    → ((i : ℕ) → i < bound → P (f i))
    → All P (map f (range_from first count))
All-map_range P f first zero bound h p = tt
All-map_range P f first (suc count) bound h p =
    (p first (omega arith), All-map_range P f (suc first) count bound (omega arith) p)

module _ {W : Type 0} ⦃D : Double W⦄ where
  length-move_row :
      (base : List W) (radius : W) (coordinates : List ℕ) (direction row : List W)
      → length (move_row base radius coordinates direction row) ≡ length row
  unfolding move_row
  length-move_row base radius [] direction row = refl
  length-move_row base radius (d ∷ coordinates) [] row = refl
  length-move_row base radius (d ∷ coordinates) (x ∷ direction) row =
      length-move_row base radius coordinates direction (set row d _) ∙ length-set row d _

  length-offspring_row :
      (rng : Generator) (farm : CaseData W) (generation : ℕ) (population : Matrix W)
      (population_size individual : ℕ)
      → length (offspring_row rng farm generation population population_size individual)
        ≡ length (get_or population individual [])
  unfolding offspring_row
  length-offspring_row rng farm generation population population_size individual =
      simp length-move_row

module _ {W : Type 0} ⦃D : Double W⦄ (exact : IsExact D) (rng : Generator) (rounds : ℕ)
    (farm : CaseData W) (valid : IsCase farm)
    (reaches : Reaches rng rounds 1 (grid_dimension farm + 1)) (population_size budget : ℕ) where
  -- Between two generations.
  pub record Kept (s : Search W) : Type 0 where
    pub population : IsPopulation farm population_size s.population
    pub best : IsLayout farm s.runtime.best_layout
    pub within : s.runtime.fes ≤ budget
    pub paid_from : s.runtime.budget ≡ budget

  record Advanced (spent : ℕ) (r : Result (Search W)) : Type 0 where
    state : Search W
    returned : r ≡ ok state
    kept : Kept state
    more : spent < state.runtime.fes

  generation_of-Advanced :
      (s : Search W)
      → 0 < population_size
      → s.runtime.fes < budget
      → Kept s
      → Advanced s.runtime.fes (generation_of rng rounds farm population_size s)
  unfolding generation_of
  generation_of-Advanced s some_rows left v = record {
    state = select rng rounds farm population_size s repaired.rows fitness after;
    returned = rw (
      repaired.returned,
      evaluate-spend exact farm valid r repaired.rows count true (omega (arith, v.paid_from))
          (omega (arith, v.paid_from)) batch,
    );
    kept = record {
      population = record {
        layouts =
            replace_accepted-All (IsLayoutRow farm) (accepted_flags fitness s.fitness) repaired.rows
              s.population repaired.population.layouts v.population.layouts;
        count = length-replace_accepted _ repaired.rows s.population ∙ v.population.count;
      };
      best =
          track_best-IsLayout exact farm valid _ fitness prefix v.best
            (All-take (IsLayoutRow farm) completed repaired.rows repaired.population.layouts);
      within = omega (arith, v.paid_from);
      paid_from = v.paid_from;
    };
    more = omega (arith, v.paid_from);
  }
    where
      r : Runtime W
      r = record s.runtime { generations = s.runtime.generations + 1 }

      count : ℕ
      count = min population_size (r.budget - r.fes)

      offspring : Matrix W
      offspring =
          map (offspring_row rng farm r.generations s.population population_size) (range count)

      rows_long : All (λ row. length row ≡ farm.turbine_count) offspring
      rows_long =
          All-map_range (λ row. length row ≡ farm.turbine_count) _ 0 count population_size
            (omega arith)
            (λ i h.
              length-offspring_row rng farm r.generations s.population population_size i
              ∙ length-layout exact farm valid (get_or s.population i []) (
                  All-get_or (IsLayoutRow farm) s.population i [] v.population.layouts
                    (omega (arith, v.population.count))))

      repaired :
          ReturnsPopulation farm
            (length offspring)
            (repair_population rng rounds farm r.generations 113 offspring)
      repaired =
          repair_population-Repairs rng farm valid rounds reaches r.generations 113 offspring
            rows_long

      batch : IsPopulation farm count repaired.rows
      batch = record {
        layouts = repaired.population.layouts;
        count = repaired.population.count ∙ length-map _ (range count) ∙ length-range_from 0 count;
      }

      completed : ℕ
      completed = min count (r.budget - r.fes)

      prefix : Matrix W
      prefix = take completed repaired.rows

      fitness : List W
      fitness = map (layout_fitness farm) prefix

      after : Runtime W
      after = spend r prefix completed fitness true

  pub record Finished (r : Result (Search W)) : Type 0 where
    pub state : Search W
    pub returned : r ≡ ok state
    pub kept : Kept state
    pub exact_budget : state.runtime.fes ≡ budget

  -- The loop ends within the budget; a small population has spent it before.
  pub generations_of-Finished :
      (fuel : ℕ) (s : Search W)
      → 0 < population_size
      → (population_size < 4 → s.runtime.fes ≡ budget)
      → budget - s.runtime.fes < fuel
      → Kept s
      → Finished (generations_of rng rounds farm population_size fuel s)
  unfolding generations_of
  generations_of-Finished zero s some_rows small h v = absurd (omega arith)
  generations_of-Finished (suc fuel) s some_rows small h v =
      elim (Bool-cases (ltb s.runtime.fes s.runtime.budget && leb 4 population_size)) [
        | inl more ↦
            let step = generation_of-Advanced s some_rows (ground (arith, v.paid_from)) v in
            let rest =
              generations_of-Finished fuel step.state some_rows (λ few. absurd (ground arith))
                (omega (arith, step.more, step.kept.within)) step.kept in
            rw more (record {
              state = rest.state;
              returned = rw step.returned rest.returned;
              kept = rest.kept;
              exact_budget = rest.exact_budget;
            })
        | inr done ↦ rw done (record {
          state = s;
          returned = refl;
          kept = v;
          exact_budget = ground (arith, v.paid_from, v.within, small);
        })
      ]
