-- ===== src/Farm/Fused.antt =====
-- `evaluate_fused_states`: one task for each layout and direction, then the sum for each layout.
use fode_hpc_wflop.Base.{
  ℕ, zero, suc, ◌+◌, ◌-◌, ◌*◌, List, [], ◌∷◌, map, length, get_or, range, take, set, replicate, pos,
  ◌-ℤ◌, ◌*ℤ◌, ◌/ℤ◌,
}
use fode_hpc_wflop.Base.Sort.{stable_sort}
use fode_hpc_wflop.Case.{CaseData}
use fode_hpc_wflop.Double.{Double, ◌⊕◌, ◌⊖◌, ◌⊗◌, nought, unity, sum_from}
use fode_hpc_wflop.Farm.Wake.{deficiency, turbine_power}

module _ {W : Type 0} ⦃D : Double W⦄ (farm : CaseData W) where
  -- The centre of the cell that a coordinate names.
  pub cell_centre : W → W × W
  cell_centre coordinate =
      let cell = D.round_int coordinate -ℤ pos 1 in
      let grid_row = cell /ℤ pos farm.cols in
      let grid_col = cell -ℤ grid_row *ℤ pos farm.cols in
      let half = D.literal 5 1 ⊗ farm.cell_width in
      (D.of_int grid_col ⊗ farm.cell_width ⊕ half, D.of_int grid_row ⊗ farm.cell_width ⊕ half)

  -- The centre in the frame of a wind direction.
  pub rotate : W → W × W → W × W
  rotate angle (x, y) =
      let cosine = D.cos angle in
      let sine = D.sin angle in (cosine ⊗ x ⊖ sine ⊗ y, sine ⊗ x ⊕ cosine ⊗ y)

  -- The turbines from the windward one on.
  unfoldable pub upstream_order : List (W × W) → List ℕ
  upstream_order centres =
      stable_sort
        (λ l r. D.lt (get_or centres r (nought, nought)).1 (get_or centres l (nought, nought)).1)
        (range (length centres))

  -- What the turbine `downstream` loses to those at the positions up to its own.
  pub squared_sum : List (W × W) → ℕ → List ℕ → W → W
  squared_sum centres downstream [] total = total
  squared_sum centres downstream (upstream ∷ rest) total =
      let at = get_or centres downstream (nought, nought) in
      let from = get_or centres upstream (nought, nought) in
      let value = deficiency (D.abs (at.0 ⊖ from.0)) (D.abs (at.1 ⊖ from.1)) in
      squared_sum centres downstream rest (total ⊕ value ⊗ value)

  -- The loop over `downstream_position`, with the wake so far; the windward turbine keeps 0.
  unfoldable pub wakes_from : List (W × W) → List ℕ → ℕ → ℕ → List W → List W
  wakes_from centres order position zero wake = wake
  wakes_from centres order position (suc count) wake =
      let downstream = get_or order position 0 in
      let loss = D.sqrt (squared_sum centres downstream (take (position + 1) order) nought) in
      wakes_from centres order (position + 1) count (set wake downstream loss)

  -- One state: the wake of each turbine of a layout under one direction.
  unfoldable pub evaluate_state : List W → W → List W
  unfolding cell_centre rotate upstream_order squared_sum wakes_from
  evaluate_state indices angle =
      let centres = map (λ x. rotate angle (cell_centre x)) indices in
      wakes_from centres (upstream_order centres) 1 (length indices - 1)
        (replicate (length indices) nought)

  -- The speeds of one direction, added to the power so far.
  speed_power : W → List W → List W → W → W
  speed_power loss (velocity ∷ velocities) (chance ∷ chances) power =
      speed_power loss velocities chances
        (power ⊕ turbine_power ((unity ⊖ loss) ⊗ velocity) ⊗ chance)
  speed_power loss _ _ power = power

  -- `data.probability[direction * speeds + speed]` for the speeds of one direction
  chances_of : ℕ → List W
  chances_of direction =
      let speeds = length farm.velocity in
      map (λ speed. get_or farm.probability (direction * speeds + speed) nought) (range speeds)

  -- The loop over the directions, whose wakes are the rows of the list.
  pub turbine_total : ℕ → ℕ → List (List W) → W → W
  turbine_total turbine direction [] power = power
  turbine_total turbine direction (wake ∷ wakes) power =
      turbine_total turbine (suc direction) wakes
        (speed_power (get_or wake turbine nought) farm.velocity (chances_of direction) power)

  -- The reduction of one layout: each turbine's power, then the sum in ascending order.
  unfoldable pub accumulated : List W → List W
  accumulated indices =
      let wakes = map (evaluate_state indices) farm.theta in
      map (λ turbine. turbine_total turbine 0 wakes nought) (range (length indices))

  unfoldable pub layout_fitness : List W → W
  unfolding evaluate_state speed_power chances_of turbine_total accumulated
  layout_fitness indices = sum_from nought (stable_sort D.lt (accumulated indices))
