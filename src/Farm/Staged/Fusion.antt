-- ===== src/Farm/Staged/Fusion.antt =====
-- The two schedules of `evaluate_population_hpc` in hpc/fode_cpp/src/evaluator.cpp agree.
use fode_hpc_wflop.Base.{
  ℕ, ◌+◌, ◌-◌, ◌*◌, ◌/◌, ◌%◌, ◌<◌, ◌≡◌, refl, inl, ap, ap₂, sym, ◌∙◌, List, [], map, length,
  length-map, length-range_from, replicate, range, get_or, arith,
}
use fode_hpc_wflop.Base.Sort.{stable_sort}
use fode_hpc_wflop.Case.{CaseData}
use fode_hpc_wflop.Double.{Double, nought, sum_from}
use fode_hpc_wflop.Fode.Grid.{Matrix}
use fode_hpc_wflop.Farm.Detail.Sums.{get_or-range}
use fode_hpc_wflop.Farm.Fused.{
  cell_centre, rotate, upstream_order, wakes_from, evaluate_state, turbine_total, accumulated,
  layout_fitness,
}
use fode_hpc_wflop.Farm.Staged.{
  execute_stage, slice, beside, place, arrange, lose, gather, score, evaluate_staged,
}
use fode_hpc_wflop.Farm.Staged.Order.{
  Agrees, Covers, execute_stage-hit, slice-of, quotient, remainder, map-range_from,
}
use fode_hpc_wflop.Farm.Staged.Arranged.{moved, slice-arrange, map-twice, rest, state-lt}
use fode_hpc_wflop.Farm.Staged.Losses.{slice-lose}
use fode_hpc_wflop.Farm.Staged.Positions.{get_or-map-range, quotient-lt, positive_factor}

split : (i n : ℕ) → 0 < n → i ≡ (i / n) * n + (i - (i / n) * n)
split i n h = grind arith

rest-lt : (i n : ℕ) → 0 < n → i - (i / n) * n < n
rest-lt i n h = grind arith

rest-remainder : (i n : ℕ) → 0 < n → i % n ≡ i - (i / n) * n
rest-remainder i n h = grind arith

-- The layouts, with the tasks of each stage in some order.
module _ {W : Type 0} ⦃D : Double W⦄ (farm : CaseData W) (indices : Matrix W)
    (rows states tasks items totals : List ℕ)
    (long : (row : ℕ) → row < length indices → length (get_or indices row []) ≡ farm.turbine_count)
    (all_rows : Covers (length indices) rows)
    (all_states : Covers (length indices * length farm.theta) states)
    (all_tasks : Covers (length indices * length farm.theta * (farm.turbine_count - 1)) tasks)
    (all_items : Covers (length indices * farm.turbine_count) items)
    (all_totals : Covers (length indices) totals) where
  abbrev n : ℕ
  n = farm.turbine_count

  abbrev directions : ℕ
  directions = length farm.theta

  abbrev arranged : ℕ → (W × W) × ℕ
  arranged =
      execute_stage
        (arrange farm indices (execute_stage (place farm indices) rows (λ i. (nought, nought))))
        states (λ i. ((nought, nought), 0))

  abbrev wake : ℕ → W
  wake = execute_stage (lose farm indices arranged) tasks (λ i. nought)

  abbrev power : ℕ → W
  power = execute_stage (gather farm indices wake) items (λ i. nought)

  abbrev turned : ℕ → List (W × W)
  turned state = moved farm indices (state / directions) (state - (state / directions) * directions)

  long_turned : (state : ℕ) → state < length indices * directions → length (turned state) ≡ n
  long_turned state h =
      length-map
        (λ x.
          rotate farm (get_or farm.theta (state - (state / directions) * directions) nought)
            (cell_centre farm x))
        (get_or indices (state / directions) [])
      ∙ long (state / directions) (quotient-lt state (length indices) directions h)

  laid :
      (state : ℕ)
      → state < length indices * directions
      → slice n arranged (state * n) ≡ beside (turned state) (upstream_order farm (turned state))
  laid state h =
      let some_direction = positive_factor state (length indices) directions h in
      ap (λ s. slice n arranged (s * n)) (split state directions some_direction)
      ∙ slice-arrange farm indices rows states (λ i. (nought, nought)) (λ i. ((nought, nought), 0))
          long all_rows all_states (state / directions) (state - (state / directions) * directions)
          (quotient-lt state (length indices) directions h)
          (rest-lt state directions some_direction)

  wake-of :
      (row direction : ℕ)
      → row < length indices
      → direction < directions
      → slice n wake ((row * directions + direction) * n)
        ≡ evaluate_state farm (get_or indices row []) (get_or farm.theta direction nought)
  unfolding evaluate_state
  wake-of row direction h k =
      slice-lose farm indices arranged turned (length indices * directions) long_turned laid tasks
        all_tasks (row * directions + direction)
        (state-lt row direction directions (length indices) h k)
      ∙ ap₂
          (λ q r.
            let cs = moved farm indices q r in
            wakes_from farm cs (upstream_order farm cs) 1 (n - 1) (replicate n nought))
          (quotient row directions direction k) (rest row directions direction k)
      ∙ ap
          (λ m.
            let cs = moved farm indices row direction in
            wakes_from farm cs (upstream_order farm cs) 1 (m - 1) (replicate m nought))
          (sym (long row h))

  wakes-of :
      (row : ℕ)
      → row < length indices
      → map (λ direction. slice n wake ((row * directions + direction) * n)) (range directions)
        ≡ map (evaluate_state farm (get_or indices row [])) farm.theta
  wakes-of row h =
      map-range_from (λ direction. slice n wake ((row * directions + direction) * n))
        (λ direction.
          evaluate_state farm (get_or indices row []) (get_or farm.theta direction nought))
        0 directions (λ k l. wake-of row k h (omega arith))
      ∙ sym (
          map-twice (λ direction. get_or farm.theta direction nought)
            (evaluate_state farm (get_or indices row [])) (range directions))
      ∙ ap (map (evaluate_state farm (get_or indices row []))) (get_or-range farm.theta nought)

  abbrev spec : ℕ → W
  spec t = get_or (accumulated farm (get_or indices (t / n) [])) (t % n) nought

  Agrees-gather : (i : ℕ) → i < length indices * n → Agrees spec (gather farm indices wake i)
  unfolding gather accumulated
  Agrees-gather i h =
      let some_turbine = positive_factor i (length indices) n h in
      let row = i / n in
      let inside = quotient-lt i (length indices) n h in
      let indices' = get_or indices row [] in
      (
        ap (λ ws. turbine_total farm (i - row * n) 0 ws nought) (wakes-of row inside)
            ∙ sym (
                get_or-map-range
                  (λ turbine.
                    turbine_total farm turbine 0 (map (evaluate_state farm indices') farm.theta)
                      nought)
                  (length indices') (i - row * n) nought
                  (omega (arith, long row inside, rest-lt i n some_turbine)))
            ∙ ap (λ r. get_or (accumulated farm indices') r nought)
                (sym (rest-remainder i n some_turbine)),
        tt,
      )

  power-of :
      (row : ℕ)
      → row < length indices
      → slice n power (row * n) ≡ accumulated farm (get_or indices row [])
  unfolding gather accumulated
  power-of row h =
      slice-of n power (row * n) (accumulated farm (get_or indices row [])) nought
        (length-map _ (range (length (get_or indices row [])))
          ∙ length-range_from 0 (length (get_or indices row []))
          ∙ long row h)
        (λ k l.
          execute_stage-hit spec (gather farm indices wake) (row * n + k) (length indices * n) items
            (λ i. nought) (row * n + k) all_items Agrees-gather
            (state-lt row k n (length indices) h l) (inl refl)
          ∙ ap₂ (λ q r. get_or (accumulated farm (get_or indices q [])) r nought)
              (quotient row n k l) (remainder row n k l))

  fitness-of :
      (row : ℕ)
      → row < length indices
      → execute_stage (score farm indices power) totals (λ i. nought) row
        ≡ layout_fitness farm (get_or indices row [])
  unfolding score layout_fitness
  fitness-of row h =
      execute_stage-hit (λ r. sum_from nought (stable_sort D.lt (slice n power (r * n))))
        (score farm indices power) row (length indices) totals (λ i. nought) row all_totals
        (λ i l. (refl, tt)) h (inl refl)
      ∙ ap (λ power. sum_from nought (stable_sort D.lt power)) (power-of row h)

  -- When each layout has `turbine_count` coordinates, the staged schedule has for each layout the
  -- fitness that the fused one computes, in whatever orders the tasks of its five stages run.
  pub evaluate_staged-layout_fitness :
      evaluate_staged farm indices rows states tasks items totals
      ≡ map (layout_fitness farm) indices
  unfolding evaluate_staged
  evaluate_staged-layout_fitness =
      map-range_from (execute_stage (score farm indices power) totals (λ i. nought))
        (λ row. layout_fitness farm (get_or indices row [])) 0 (length indices)
        (λ k l. fitness-of k (omega arith))
      ∙ sym
          (map-twice (λ row. get_or indices row []) (layout_fitness farm) (range (length indices)))
      ∙ ap (map (layout_fitness farm)) (get_or-range indices [])
