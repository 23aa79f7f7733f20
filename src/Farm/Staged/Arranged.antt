-- ===== src/Farm/Staged/Arranged.antt =====
-- The first two stages of hpc/fode_cpp/src/evaluator.cpp leave what `evaluate_fused_states` computes for a
-- layout and a direction, whichever way the tasks of a stage are ordered.
use fode_hpc_wflop.Base.{
  ℕ, suc, ◌+◌, ◌-◌, ◌*◌, ◌/◌, ◌<◌, ◌≡◌, refl, ap, ap₂, ◌∙◌, List, [], ◌∷◌, map, length, length-map,
  length-range_from, range, get_or, arith,
}
use fode_hpc_wflop.Base.Sort.{length-stable_sort}
use fode_hpc_wflop.Case.{CaseData}
use fode_hpc_wflop.Double.{Double, nought}
use fode_hpc_wflop.Fode.Grid.{Matrix}
use fode_hpc_wflop.Farm.Fused.{cell_centre, rotate, upstream_order}
use fode_hpc_wflop.Farm.Staged.{execute_stage, slice, beside, place, arrange}
use fode_hpc_wflop.Farm.Staged.Order.{Covers, quotient, slice-execute_stage}

pub length-upstream_order :
    {W : Type 0} ⦃D : Double W⦄ (farm : CaseData W) (centres : List (W × W))
    → length (upstream_order farm centres) ≡ length centres
unfolding upstream_order
length-upstream_order farm centres =
    length-stable_sort _ (range (length centres)) ∙ length-range_from 0 (length centres)

pub rest : (i n k : ℕ) → k < n → (i * n + k) - ((i * n + k) / n) * n ≡ k
rest i n k h = ap (λ q. (i * n + k) - q * n) (quotient i n k h) ∙ omega arith

pub state-lt : (row direction n m : ℕ) → row < m → direction < n → row * n + direction < m * n
state-lt row direction n m h k = grind arith

length-beside :
    {A B : Type 0} (xs : List A) (ys : List B)
    → length ys ≡ length xs
    → length (beside xs ys) ≡ length xs
length-beside [] ys h = refl
length-beside (x ∷ xs) [] h = absurd (omega (arith, h))
length-beside (x ∷ xs) (y ∷ ys) h = ap suc (length-beside xs ys (omega (arith, h)))

pub map-twice :
    {A B C : Type 0} (f : A → B) (g : B → C) (xs : List A)
    → map g (map f xs) ≡ map (λ x. g (f x)) xs
map-twice f g [] = refl
map-twice f g (x ∷ xs) = ap (λ ys. g (f x) ∷ ys) (map-twice f g xs)

module _ {W : Type 0} ⦃D : Double W⦄ (farm : CaseData W) (indices : Matrix W) where
  -- The centres of a layout in the frame of a direction, as `evaluate_fused_states` has them.
  abbrev pub moved : ℕ → ℕ → List (W × W)
  moved row direction =
      map (λ x. rotate farm (get_or farm.theta direction nought) (cell_centre farm x))
        (get_or indices row [])

  -- What a task of the second stage writes, by the centres it reads.
  abbrev windward : List (W × W) → ℕ → List ((W × W) × ℕ)
  windward centres direction =
      let turned = map (rotate farm (get_or farm.theta direction nought)) centres in
      beside turned (upstream_order farm turned)

  length-windward :
      (centres : List (W × W)) (direction : ℕ)
      → length (windward centres direction) ≡ length centres
  length-windward centres direction =
      let turned = map (rotate farm (get_or farm.theta direction nought)) centres in
      length-beside turned (upstream_order farm turned) (length-upstream_order farm turned)
      ∙ length-map (rotate farm (get_or farm.theta direction nought)) centres

  slice-place :
      (first : List ℕ) (centres : ℕ → W × W)
      → ((row : ℕ) → row < length indices → length (get_or indices row []) ≡ farm.turbine_count)
      → Covers (length indices) first
      → (row : ℕ) → row < length indices
      → slice farm.turbine_count
          (execute_stage (place farm indices) first centres)
          (row * farm.turbine_count)
        ≡ map (cell_centre farm) (get_or indices row [])
  unfolding place
  slice-place first centres long c row h =
      slice-execute_stage farm.turbine_count (length indices)
        (λ row. map (cell_centre farm) (get_or indices row [])) (nought, nought) first centres c
        (λ i l. length-map (cell_centre farm) (get_or indices i []) ∙ long i l) row h

  -- When each row has `n` coordinates, `first` is an order of the rows and `second` one of the states,
  -- the two stages leave for a row and a direction the rotated centres of the row beside their
  -- windward order, as the fused evaluation computes them, whatever the orders are.
  pub slice-arrange :
      (first second : List ℕ) (centres : ℕ → W × W) (arranged : ℕ → (W × W) × ℕ)
      → ((row : ℕ) → row < length indices → length (get_or indices row []) ≡ farm.turbine_count)
      → Covers (length indices) first
      → Covers (length indices * length farm.theta) second
      → (row direction : ℕ) → row < length indices
      → direction < length farm.theta
      → slice farm.turbine_count
          (execute_stage
            (arrange farm indices (execute_stage (place farm indices) first centres))
            second
            arranged)
          ((row * length farm.theta + direction) * farm.turbine_count)
        ≡ beside (moved row direction) (upstream_order farm (moved row direction))
  unfolding arrange
  slice-arrange first second centres arranged long c d row direction h k =
      let n = farm.turbine_count in
      let placed = execute_stage (place farm indices) first centres in
      let state = row * length farm.theta + direction in
      slice-execute_stage n (length indices * length farm.theta)
        (λ state.
          windward (slice n placed ((state / length farm.theta) * n))
            (state - (state / length farm.theta) * length farm.theta))
        ((nought, nought), 0) second arranged d
        (λ i l.
          length-windward (slice n placed ((i / length farm.theta) * n))
            (i - (i / length farm.theta) * length farm.theta)
          ∙ length-map _ (range n)
          ∙ length-range_from 0 n)
        state (state-lt row direction (length farm.theta) (length indices) h k)
      ∙ ap₂ (λ q r. windward (slice n placed (q * n)) r)
          (quotient row (length farm.theta) direction k) (rest row (length farm.theta) direction k)
      ∙ ap (λ centres. windward centres direction) (slice-place first centres long c row h)
      ∙ ap (λ turned. beside turned (upstream_order farm turned))
          (map-twice (cell_centre farm) (rotate farm (get_or farm.theta direction nought))
            (get_or indices row []))
