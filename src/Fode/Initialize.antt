-- ===== src/Fode/Initialize.antt =====
-- `initialize_population` of optimizer.cpp.
pub mod Feasible
use fode_hpc_wflop.Base.{
  ℕ, suc, Bool, ◌||◌, ◌&&◌, List, [], ◌∷◌, map, ltb, ◌==◌, length, take, range, Result, ok,
  runtime_error, throw_if, ◌>>=◌, ◌>>◌, pos,
}
use fode_hpc_wflop.Base.Sort.{stable_sort}
use fode_hpc_wflop.Case.{CaseData}
use fode_hpc_wflop.Double.{Double}
use fode_hpc_wflop.Rng.Generator.{Generator, key}
use fode_hpc_wflop.Fode.Phase
use fode_hpc_wflop.Fode.Grid.{Matrix, unavailable_mask, free_cells}

-- The order of the keyed cells: by key, then by cell.
pub key_before : ℕ × ℕ → ℕ × ℕ → Bool
key_before (k, cell) (k', cell') = ltb k k' || (k == k' && ltb cell cell')

module _ (rng : Generator) where
  -- `keyed`, from the available cell with index `i` on
  pub keyed_from : ℕ → ℕ → ℕ → List ℕ → List (ℕ × ℕ)
  keyed_from phase individual i [] = []
  keyed_from phase individual i (cell ∷ cells) =
      (rng.uniform (key 0 phase individual i 0), cell) ∷ keyed_from phase individual (suc i) cells

  -- the cells of one individual, in ascending order
  unfoldable pub selected : ℕ → List ℕ → ℕ → ℕ → List ℕ
  unfolding keyed_from key_before
  selected phase available dimension individual = stable_sort ltb (
      take dimension
        (map (λ k. k.1) (stable_sort key_before (keyed_from phase individual 0 available))))

  module _ {W : Type 0} ⦃D : Double W⦄ where
    unfoldable pub initialize_population : ℕ → CaseData W → Result (Matrix W)
    unfolding selected
    initialize_population population_size farm = do
      blocked ← unavailable_mask farm
      let available = free_cells 1 blocked
      throw_if (ltb (length available) farm.turbine_count)
          (runtime_error "not enough available cells")
      ok (
          map
            (λ individual.
              map (λ cell. D.of_int (pos cell))
                (selected Phase.initial_key available farm.turbine_count individual))
            (range population_size))
