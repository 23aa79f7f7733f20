-- ===== src/Fode/Generation/Reduced.antt =====
-- The linear reduction keeps the state well formed, and never makes the population larger.
use fode_hpc_wflop.Base.{
  ltb, ◌==◌, ltb→lt, Bool-cases, length, get_or, length-map, Result, ok, ℕ, ◌≤◌, ◌<◌, ◌≡◌, refl,
  ◌∙◌, subst, inl, inr, true, List, [], ◌∷◌, map, arith,
}
use fode_hpc_wflop.Case.{CaseData}
use fode_hpc_wflop.Double.{Double}
use fode_hpc_wflop.Rng.Generator.{Generator}
use fode_hpc_wflop.Fode.Grid.{Matrix}
use fode_hpc_wflop.Fode.State.{State, History}
use fode_hpc_wflop.Fode.Survivors.{survivor_rows, retain_rows}
use fode_hpc_wflop.Fode.Survivors.Count.{retain_rows-Retains, length-survivor_rows}
use fode_hpc_wflop.Fode.Generation.{reduced, reduce, planned_population, retain_history}
use fode_hpc_wflop.Fode.Generation.Kept.{IsHistory, IsState}

pub record Reduced {W : Type 0} ⦃D : Double W⦄ (farm : CaseData W) (initial : ℕ) (s : State W)
    (r : Result (State W)) : Type 0 where
  pub state : State W
  pub returned : r ≡ ok state
  pub same_physical : state.physical_fes ≡ s.physical_fes
  pub same_legacy : state.legacy_fes ≡ s.legacy_fes
  pub not_larger : state.population_size ≤ s.population_size
  pub kept : IsState farm initial state

-- A matrix that is not empty gets as many rows as there are to keep.
record RetainsRows {W : Type 0} (size : ℕ) (r : Result (Matrix W)) : Type 0 where
  matrix : Matrix W
  returned : r ≡ ok matrix
  long : length matrix ≡ size

retain_rows-RetainsRows :
    {W : Type 0} (matrix : Matrix W) (keep : List ℕ) (old_rows : ℕ)
    → 0 < old_rows
    → length matrix ≡ old_rows
    → RetainsRows (length keep) (retain_rows matrix keep old_rows)
unfolding retain_rows
retain_rows-RetainsRows [] keep old_rows h e = absurd (omega arith)
retain_rows-RetainsRows (row ∷ rows) keep old_rows h e =
    let same : (length (row ∷ rows) == old_rows) ≡ true = ground arith in
    record {
      matrix = map (λ r. get_or (row ∷ rows) r []) keep;
      returned = rw same;
      long = length-map (λ r. get_or (row ∷ rows) r []) keep;
    }

record RetainsHistory {W : Type 0} (size : ℕ) (r : Result (History W)) : Type 0 where
  history : History W
  returned : r ≡ ok history
  aligned : IsHistory size history

retain_history-Retains :
    {W : Type 0} (h : History W) (keep : List ℕ) (old_rows : ℕ)
    → IsHistory old_rows h
    → RetainsHistory (length keep) (retain_history h keep old_rows)
unfolding retain_history
retain_history-Retains h keep old_rows v =
    let a = retain_rows-Retains h.h1 keep old_rows v.h1 in
    let b = retain_rows-Retains h.h2 keep old_rows v.h2 in
    let c = retain_rows-Retains h.h3 keep old_rows v.h3 in
    let d = retain_rows-Retains h.h4 keep old_rows v.h4 in
    record {
      history = record { h1 = a.matrix; h2 = b.matrix; h3 = c.matrix; h4 = d.matrix };
      returned = rw (a.returned, b.returned, c.returned, d.returned);
      aligned = record { h1 = a.rows; h2 = b.rows; h3 = c.rows; h4 = d.rows };
    }

module _ {W : Type 0} ⦃D : Double W⦄ (rng : Generator) (rounds : ℕ) (farm : CaseData W)
    (budget initial minimum : ℕ) where
  planned_low :
      (legacy_fes : ℕ)
      → minimum ≤ planned_population rng rounds farm budget initial minimum legacy_fes
  unfolding planned_population
  planned_low legacy_fes = omega arith

  pub reduce-Reduced :
      (s : State W)
      → 3 ≤ minimum
      → IsState farm initial s
      → Reduced farm initial s (reduce rng rounds farm budget initial minimum s)
  unfolding reduce reduced
  reduce-Reduced s m v = elim (Bool-cases (ltb planned s.population_size)) [
    | inr enough ↦ rw enough (record {
      state = s;
      returned = refl;
      same_physical = refl;
      same_legacy = refl;
      not_larger = omega arith;
      kept = v;
    })
    | inl smaller ↦ rw smaller (record {
      state =
          reduced rng rounds farm budget initial minimum s planned keep rows.matrix dp.history
            da.history;
      returned = rw (rows.returned, dp.returned, da.returned);
      same_physical = refl;
      same_legacy = refl;
      not_larger = omega (arith, ltb→lt _ _ smaller);
      kept = record {
        rows = rows.long ∙ kept smaller;
        values = length-map _ keep ∙ kept smaller;
        large = omega (arith, planned_low s.legacy_fes);
        small = omega (arith, ltb→lt _ _ smaller, v.small);
        memory = v.memory;
        dp = subst (λ n. IsHistory n dp.history) (kept smaller) dp.aligned;
        da = subst (λ n. IsHistory n da.history) (kept smaller) da.aligned;
        best = v.best;
      };
    })
  ]
    where
      planned : ℕ
      planned = planned_population rng rounds farm budget initial minimum s.legacy_fes

      keep : List ℕ
      keep = survivor_rows s.fitness planned

      kept : ltb planned s.population_size ≡ true → length keep ≡ planned
      kept e = length-survivor_rows s.fitness planned (omega (arith, ltb→lt _ _ e, v.values))

      rows : RetainsRows (length keep) (retain_rows s.population keep s.population_size)
      rows =
          retain_rows-RetainsRows s.population keep s.population_size (omega (arith, v.large))
            v.rows

      dp : RetainsHistory (length keep) (retain_history s.dp keep s.population_size)
      dp = retain_history-Retains s.dp keep s.population_size v.dp

      da : RetainsHistory (length keep) (retain_history s.da keep s.population_size)
      da = retain_history-Retains s.da keep s.population_size v.da
