-- ===== src/Wflop/Runtime/Ledger.antt =====
-- The ledger of evaluations is exact, and the best value only grows.
use fode_hpc_wflop.Base.{
  leb, ◌==◌, if◌then◌else◌, Bool-cases, length, take, length-take, length-map, Result, ok, ℕ, ◌+◌,
  ◌-◌, ◌<◌, min, ◌≡◌, refl, sym, ◌∙◌, subst, ◌⊎◌, inl, inr, Bool, true, false, ◌||◌, List, [], ◌∷◌,
  map, arith,
}
use fode_hpc_wflop.Case.{CaseData}
use fode_hpc_wflop.Double.{Double}
use fode_hpc_wflop.Double.Laws.{IsExact, IsOrdered}
use fode_hpc_wflop.Base.Sort.Laws.{All-take}
use fode_hpc_wflop.Farm.Fused.{layout_fitness}
use fode_hpc_wflop.Farm.Evaluate.Feasible.{evaluate_population_hpc_ok}
use fode_hpc_wflop.Fode.Grid.{Matrix, IsCase, IsLayoutRow, IsPopulation}
use fode_hpc_wflop.Fode.Accept.{Best, track_best}
use fode_hpc_wflop.Wflop.Runtime.{Runtime, spend, evaluate}

-- A value that is the old one or above it.
abbrev pub Grown : {W : Type 0} ⦃D : Double W⦄ → W → W → Type 0
Grown ⦃D⦄ old new = (new ≡ old) ⊎ (D.lt old new ≡ true)

-- With doubles that hold every int exactly, `Runtime::evaluate` returns on a batch of one or more
-- feasible layouts of an admitted case from a ledger below its budget.
pub evaluate-spend :
    {W : Type 0} ⦃D : Double W⦄ (exact : IsExact D) (farm : CaseData W) (valid : IsCase farm)
    (r : Runtime W) (population : Matrix W) (rows : ℕ) (track : Bool)
    → 0 < rows
    → r.fes < r.budget
    → IsPopulation farm rows population
    → let completed = min rows (r.budget - r.fes) in
      let fitness = map (layout_fitness farm) (take completed population) in
      evaluate farm r population rows track
      ≡ ok (fitness, spend r (take completed population) completed fitness track)
unfolding evaluate
evaluate-spend exact farm valid r population rows track h left p =
    let completed = min rows (r.budget - r.fes) in
    let open_ledger : (rows == 0 || leb r.budget r.fes) ≡ false = ground arith in
    let front : IsPopulation farm completed (take completed population) = record {
      layouts = All-take (IsLayoutRow farm) completed population p.layouts;
      count = omega (arith, length-take completed population, p.count);
    } in
    rw (
      open_ledger,
      evaluate_population_hpc_ok exact farm valid (take completed population) completed front
          (omega arith),
    )

-- A batch that the budget pays for, in whole or in part.
pub record Paid {W : Type 0} ⦃D : Double W⦄ (r : Runtime W) (rows : ℕ)
    (result : Result (List W × Runtime W)) : Type 0 where
  pub fitness : List W
  pub after : Runtime W
  pub returned : result ≡ ok (fitness, after)
  pub spent : after.fes ≡ min r.budget (r.fes + rows)
  pub counted : r.fes + length fitness ≡ after.fes
  pub grown : Grown r.best after.best

module _ {W : Type 0} ⦃D : Double W⦄ (exact : IsExact D) (ordered : IsOrdered D) (farm : CaseData W)
    (valid : IsCase farm) where
  Grown-then : (a b c : W) → Grown a b → Grown b c → Grown a c
  Grown-then a b c (inl e) (inl f) = inl (f ∙ e)
  Grown-then a b c (inl e) (inr g) = inr (subst (λ x. D.lt x c ≡ true) e g)
  Grown-then a b c (inr g) (inl f) = inr (subst (λ x. D.lt a x ≡ true) (sym f) g)
  Grown-then a b c (inr g) (inr h) = inr (ordered.lt_trans a b c g h)

  step-Grown :
      (best : Best W) (value : W) (row : List W)
      → Grown best.best_fitness
          (if D.lt best.best_fitness value
            then record { best_fitness = value; best_layout = map D.round_int row }
            else best).best_fitness
  step-Grown best value row = elim (Bool-cases (D.lt best.best_fitness value)) [
    | inl better ↦ rw better (inr better)
    | inr worse ↦ rw worse (inl refl)
  ]

  track_best-Grown :
      (best : Best W) (fitness : List W) (rows : Matrix W)
      → Grown best.best_fitness (track_best best fitness rows).best_fitness
  unfolding track_best
  track_best-Grown best [] rows = inl refl
  track_best-Grown best (v ∷ fitness) [] = inl refl
  track_best-Grown best (v ∷ fitness) (row ∷ rows) =
      Grown-then best.best_fitness _ _ (step-Grown best v row) (
        track_best-Grown
          (if D.lt best.best_fitness v
            then record { best_fitness = v; best_layout = map D.round_int row }
            else best)
          fitness rows)

  spend-Grown :
      (r : Runtime W) (rows : Matrix W) (completed : ℕ) (fitness : List W) (track : Bool)
      → Grown r.best (spend r rows completed fitness track).best
  spend-Grown r rows completed fitness true = track_best-Grown _ fitness rows
  spend-Grown r rows completed fitness false = inl refl

  -- With doubles that hold every int exactly and a transitive order on them, a batch of one or more
  -- feasible layouts of an admitted case is paid from a ledger below its budget:
  -- `Runtime::evaluate` returns, the ledger then stands at the old count and the batch together, or
  -- at the budget where that is less, it has grown by the number of fitness values returned, and
  -- the best value is the old one or above it.
  pub evaluate-Paid :
      (r : Runtime W) (population : Matrix W) (rows : ℕ) (track : Bool)
      → 0 < rows
      → r.fes < r.budget
      → IsPopulation farm rows population
      → Paid r rows (evaluate farm r population rows track)
  evaluate-Paid r population rows track h left p = record {
    fitness = fitness;
    after = spend r prefix completed fitness track;
    returned = evaluate-spend exact farm valid r population rows track h left p;
    spent = omega arith;
    counted =
        omega (
          arith,
          length-map (layout_fitness farm) prefix,
          length-take completed population,
          p.count,
        );
    grown = spend-Grown r prefix completed fitness track;
  }
    where
      completed : ℕ
      completed = min rows (r.budget - r.fes)

      prefix : Matrix W
      prefix = take completed population

      fitness : List W
      fitness = map (layout_fitness farm) prefix
