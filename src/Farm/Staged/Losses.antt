-- ===== src/Farm/Staged/Losses.antt =====
-- The stage of the wakes in hpc/fode_cpp/src/evaluator.cpp leaves for each state what the fused loop does.
use fode_hpc_wflop.Base.{
  ℕ, ◌+◌, ◌-◌, ◌*◌, ◌/◌, ◌%◌, ◌≤◌, ◌<◌, ◌≡◌, inl, inr, ap, ap₂, sym, subst, ◌∙◌, List, map, length,
  length-replicate, replicate, take, range, get_or, All, All-get_or, arith,
}
use fode_hpc_wflop.Base.Sort.Laws.{Distinct, stable_sort-All, stable_sort-DistinctBy}
use fode_hpc_wflop.Case.{CaseData}
use fode_hpc_wflop.Double.{Double, nought}
use fode_hpc_wflop.Fode.Grid.{Matrix}
use fode_hpc_wflop.Fode.Survivors.Count.{range_from-below, range_from-Distinct}
use fode_hpc_wflop.Farm.Fused.{upstream_order, wakes_from, squared_sum}
use fode_hpc_wflop.Farm.Staged.{execute_stage, slice, beside, lose}
use fode_hpc_wflop.Farm.Staged.Order.{
  Agrees, Hits, Covers, execute_stage-hit, execute_stage-keep, slice-of, quotient, remainder,
}
use fode_hpc_wflop.Farm.Staged.Wakes.{loss, wakes_from-other, wakes_from-at, length-wakes_from}
use fode_hpc_wflop.Farm.Staged.Arranged.{length-upstream_order, map-twice, state-lt}
use fode_hpc_wflop.Farm.Staged.Positions.{
  Distinct-get_or, find_position, get_or-map-range, take-map-range_from, firsts, seconds,
  quotient-lt, remainder-lt, positive_factor, get_or-replicate,
}

module _ {W : Type 0} ⦃D : Double W⦄ (farm : CaseData W) (centres : List (W × W)) where
  upstream_order-below : All (λ t. t < length centres) (upstream_order farm centres)
  unfolding upstream_order
  upstream_order-below =
      stable_sort-All _ _ (range (length centres))
        (range_from-below 0 (length centres) _ (omega arith))

  upstream_order-Distinct : Distinct (upstream_order farm centres)
  unfolding upstream_order
  upstream_order-Distinct =
      stable_sort-DistinctBy _ (λ n. n) (range (length centres))
        (range_from-Distinct 0 (length centres))

-- The array behind the second stage, whose states are below `end`.
module _ {W : Type 0} ⦃D : Double W⦄ (farm : CaseData W) (indices : Matrix W)
    (arranged : ℕ → (W × W) × ℕ) (turned : ℕ → List (W × W)) (end : ℕ)
    (long : (state : ℕ) → state < end → length (turned state) ≡ farm.turbine_count)
    (laid : (state : ℕ)
      → state < end
      → slice farm.turbine_count arranged (state * farm.turbine_count)
        ≡ beside (turned state) (upstream_order farm (turned state))) where
  centres_at :
      (state : ℕ)
      → state < end
      → slice farm.turbine_count (λ i. (arranged i).0) (state * farm.turbine_count) ≡ turned state
  centres_at state h =
      sym (
        map-twice (λ i. arranged (state * farm.turbine_count + i)) (λ p. p.0)
          (range farm.turbine_count))
      ∙ ap (map (λ p. p.0)) (laid state h)
      ∙ firsts (turned state) (upstream_order farm (turned state))
          (length-upstream_order farm (turned state))

  order_at :
      (state : ℕ)
      → state < end
      → slice farm.turbine_count (λ i. (arranged i).1) (state * farm.turbine_count)
        ≡ upstream_order farm (turned state)
  order_at state h =
      sym (
        map-twice (λ i. arranged (state * farm.turbine_count + i)) (λ p. p.1)
          (range farm.turbine_count))
      ∙ ap (map (λ p. p.1)) (laid state h)
      ∙ seconds (turned state) (upstream_order farm (turned state))
          (length-upstream_order farm (turned state))

  turbine_at :
      (state position : ℕ)
      → state < end
      → position < farm.turbine_count
      → (arranged (state * farm.turbine_count + position)).1
        ≡ get_or (upstream_order farm (turned state)) position 0
  turbine_at state position h k =
      sym (
        get_or-map-range (λ i. (arranged (state * farm.turbine_count + i)).1) farm.turbine_count
          position 0 k)
      ∙ ap (λ order. get_or order position 0) (order_at state h)

  prefix_at :
      (state position : ℕ)
      → state < end
      → position < farm.turbine_count
      → slice (position + 1) (λ i. (arranged i).1) (state * farm.turbine_count)
        ≡ take (position + 1) (upstream_order farm (turned state))
  prefix_at state position h k =
      sym (
        take-map-range_from (λ i. (arranged (state * farm.turbine_count + i)).1) 0
          farm.turbine_count (position + 1) (omega arith))
      ∙ ap (take (position + 1)) (order_at state h)

  -- The wakes of a state in the fused evaluation.
  abbrev pub wakes : ℕ → List W
  wakes state =
      wakes_from farm (turned state) (upstream_order farm (turned state)) 1 (farm.turbine_count - 1)
        (replicate farm.turbine_count nought)

  abbrev spec : ℕ → W
  spec t = get_or (wakes (t / farm.turbine_count)) (t % farm.turbine_count) nought

  spec_at :
      (state k : ℕ)
      → k < farm.turbine_count
      → spec (state * farm.turbine_count + k) ≡ get_or (wakes state) k nought
  spec_at state k h =
      ap₂ (λ q r. get_or (wakes q) r nought) (quotient state farm.turbine_count k h)
        (remainder state farm.turbine_count k h)

  order-below :
      (state q : ℕ)
      → state < end
      → q < farm.turbine_count
      → get_or (upstream_order farm (turned state)) q 0 < farm.turbine_count
  order-below state q h k = omega (
    arith,
    long state h,
    All-get_or (λ t. t < length (turned state)) (upstream_order farm (turned state)) q 0
        (upstream_order-below farm (turned state))
        (omega (arith, long state h, length-upstream_order farm (turned state))),
  )

  wakes-at :
      (state q : ℕ)
      → state < end
      → 1 ≤ q
      → q < farm.turbine_count
      → get_or (wakes state) (get_or (upstream_order farm (turned state)) q 0) nought
        ≡ loss farm (turned state) (upstream_order farm (turned state)) q
  wakes-at state q h l k =
      wakes_from-at farm (turned state) (upstream_order farm (turned state)) 1
        (farm.turbine_count - 1) (replicate farm.turbine_count nought) q
        (λ p a b.
          Distinct-get_or (upstream_order farm (turned state)) q p
            (upstream_order-Distinct farm (turned state)) a
            (omega (arith, long state h, length-upstream_order farm (turned state))))
        l (omega arith)
        (omega
          (arith, length-replicate farm.turbine_count (nought {W = W}), order-below state q h k))

  written-right :
      (state q : ℕ)
      → state < end
      → 1 ≤ q
      → q < farm.turbine_count
      → D.sqrt (
          squared_sum farm
            (slice farm.turbine_count (λ i. (arranged i).0) (state * farm.turbine_count))
            (arranged (state * farm.turbine_count + q)).1
            (slice (q + 1) (λ i. (arranged i).1) (state * farm.turbine_count))
            nought)
        ≡ spec (state * farm.turbine_count + (arranged (state * farm.turbine_count + q)).1)
  written-right state q h l k =
      let order = upstream_order farm (turned state) in
      ap₂
        (λ cs t. D.sqrt (
          squared_sum farm cs t (slice (q + 1) (λ i. (arranged i).1) (state * farm.turbine_count))
            nought))
        (centres_at state h) (turbine_at state q h k)
      ∙ ap (λ before. D.sqrt (squared_sum farm (turned state) (get_or order q 0) before nought))
          (prefix_at state q h k)
      ∙ sym (wakes-at state q h l k)
      ∙ sym (spec_at state (get_or order q 0) (order-below state q h k))
      ∙ ap (λ t. spec (state * farm.turbine_count + t)) (sym (turbine_at state q h k))

  Agrees-lose :
      (i : ℕ) → i < end * (farm.turbine_count - 1) → Agrees spec (lose farm indices arranged i)
  unfolding lose
  Agrees-lose i h =
      let count = farm.turbine_count - 1 in
      let some_task : 0 < count = positive_factor i end count h in
      (
        written-right (i / count) (i % count + 1) (quotient-lt i end count h) (omega arith)
            (omega (arith, remainder-lt i count some_task)),
        tt,
      )

  Hits-lose :
      (state q : ℕ)
      → state < end
      → 1 ≤ q
      → q < farm.turbine_count
      → Hits spec
          (state * farm.turbine_count + get_or (upstream_order farm (turned state)) q 0)
          (lose farm indices arranged (state * (farm.turbine_count - 1) + (q - 1)))
  unfolding lose
  Hits-lose state q h l k =
      let count = farm.turbine_count - 1 in
      let a = quotient state count (q - 1) (omega arith) in
      let b = remainder state count (q - 1) (omega arith) in
      let c : q - 1 + 1 ≡ q = omega arith in
      inl (
        ap₂ (λ s r. s * farm.turbine_count + (arranged (s * farm.turbine_count + (r + 1))).1) a b
        ∙ ap (λ r. state * farm.turbine_count + (arranged (state * farm.turbine_count + r)).1) c
        ∙ ap (λ t. state * farm.turbine_count + t) (turbine_at state q h k))

  pub slice-lose :
      (tasks : List ℕ)
      → Covers (end * (farm.turbine_count - 1)) tasks
      → (state : ℕ) → state < end
      → slice farm.turbine_count
          (execute_stage (lose farm indices arranged) tasks (λ i. nought))
          (state * farm.turbine_count)
        ≡ wakes state
  slice-lose tasks c state h =
      let n = farm.turbine_count in
      let order = upstream_order farm (turned state) in
      slice-of n (execute_stage (lose farm indices arranged) tasks (λ i. nought)) (state * n)
        (wakes state) nought
        (length-wakes_from farm (turned state) order 1 (n - 1) (replicate n nought)
          ∙ length-replicate n (nought {W = W}))
        (λ k l. elim (find_position order k 1 (n - 1)) [
          | inl (q, a, b, e) ↦
              execute_stage-hit spec (lose farm indices arranged) (state * n + k) (end * (n - 1))
                tasks (λ i. nought) (state * (n - 1) + (q - 1)) c Agrees-lose
                (state-lt state (q - 1) (n - 1) end h (omega arith))
                (subst
                  (λ t.
                    Hits spec (state * n + t)
                      (lose farm indices arranged (state * (n - 1) + (q - 1))))
                  e (Hits-lose state q h a (omega arith)))
              ∙ spec_at state k l
          | inr none ↦
              execute_stage-keep spec (lose farm indices arranged) (state * n + k) (end * (n - 1))
                tasks (λ i. nought) c Agrees-lose
                (sym (
                  spec_at state k l
                  ∙ wakes_from-other farm (turned state) order 1 (n - 1) (replicate n nought) k none
                  ∙ get_or-replicate nought n k))
              ∙ spec_at state k l
        ])
