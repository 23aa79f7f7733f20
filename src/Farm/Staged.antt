-- ===== src/Farm/Staged.antt =====
-- The staged schedule of `evaluate_population_hpc` in hpc/fode_cpp/src/evaluator.cpp: flat arrays, and
-- one stage of tasks after another, each stage in any order of its tasks. A task writes places of its
-- own and reads what earlier stages have written, so that a task is one step.
pub mod Order
pub mod Wakes
pub mod Arranged
pub mod Positions
pub mod Losses
pub mod Fusion
pub mod Examples
use fode_hpc_wflop.Base.{
  ℕ, suc, ◌+◌, ◌-◌, ◌*◌, ◌/◌, ◌%◌, ◌==◌, if◌then◌else◌, List, [], ◌∷◌, map, length, get_or, range,
}
use fode_hpc_wflop.Base.Sort.{stable_sort}
use fode_hpc_wflop.Case.{CaseData}
use fode_hpc_wflop.Double.{Double, nought, sum_from}
use fode_hpc_wflop.Fode.Grid.{Matrix}
use fode_hpc_wflop.Farm.Fused.{cell_centre, rotate, upstream_order, squared_sum, turbine_total}

-- What a task writes, and where.
abbrev pub Writes : Type 0 → Type 0
Writes A = List (ℕ × A)

module _ {A : Type 0} where
  abbrev pub write_all : Writes A → (ℕ → A) → ℕ → A
  write_all [] a = a
  write_all ((place, value) ∷ more) a = write_all more (λ i. if i == place then value else a i)

  -- `execute_stage`, with the indices in the order in which their tasks run: the ascending one below
  -- `minimum_parallel_items`, otherwise that of the executor.
  pub execute_stage : (ℕ → Writes A) → List ℕ → (ℕ → A) → ℕ → A
  execute_stage task [] a = a
  execute_stage task (index ∷ order) a = execute_stage task order (write_all (task index) a)

  -- `begin + offset` up to `begin + offset + n`
  abbrev pub slice : ℕ → (ℕ → A) → ℕ → List A
  slice n a offset = map (λ i. a (offset + i)) (range n)

  abbrev pub written_at : ℕ → List A → Writes A
  written_at place [] = []
  written_at place (x ∷ xs) = (place, x) ∷ written_at (suc place) xs

module _ {A B : Type 0} where
  abbrev pub beside : List A → List B → List (A × B)
  beside (x ∷ xs) (y ∷ ys) = (x, y) ∷ beside xs ys
  beside _ _ = []

module _ {W : Type 0} ⦃D : Double W⦄ (farm : CaseData W) (indices : Matrix W) where
  abbrev pub n : ℕ
  n = farm.turbine_count

  abbrev pub directions : ℕ
  directions = length farm.theta

  -- `x` and `y`
  pub place : ℕ → Writes (W × W)
  place row = written_at (row * n) (map (cell_centre farm) (get_or indices row []))

  -- `transformed_x` and `transformed_y` with `upstream_order`, which the same task writes
  pub arrange : (ℕ → W × W) → ℕ → Writes ((W × W) × ℕ)
  arrange centres state =
      let row = state / directions in
      let direction = state - row * directions in
      let angle = get_or farm.theta direction nought in
      let moved = map (rotate farm angle) (slice n centres (row * n)) in
      written_at (state * n) (beside moved (upstream_order farm moved))

  pub lose : (ℕ → (W × W) × ℕ) → ℕ → Writes W
  lose arranged task =
      let position = task % (n - 1) + 1 in
      let state = task / (n - 1) in
      let downstream = (arranged (state * n + position)).1 in
      (
        state * n + downstream,
        D.sqrt (
            squared_sum farm (slice n (λ i. (arranged i).0) (state * n)) downstream
              (slice (position + 1) (λ i. (arranged i).1) (state * n)) nought),
      )
      ∷ []

  pub gather : (ℕ → W) → ℕ → Writes W
  gather wake task =
      let row = task / n in
      let turbine = task - row * n in
      (
        task,
        turbine_total farm turbine 0
            (map (λ direction. slice n wake ((row * directions + direction) * n))
              (range directions))
            nought,
      )
      ∷ []

  pub score : (ℕ → W) → ℕ → Writes W
  score power row = (row, sum_from nought (stable_sort D.lt (slice n power (row * n)))) ∷ []

  -- The fitness of each layout, with the orders in which the tasks of the five stages run.
  pub evaluate_staged : List ℕ → List ℕ → List ℕ → List ℕ → List ℕ → List W
  evaluate_staged rows states tasks items totals =
      let centres = execute_stage place rows (λ i. (nought, nought)) in
      let arranged = execute_stage (arrange centres) states (λ i. ((nought, nought), 0)) in
      let wake = execute_stage (lose arranged) tasks (λ i. nought) in
      let power = execute_stage (gather wake) items (λ i. nought) in
      map (execute_stage (score power) totals (λ i. nought)) (range (length indices))
