-- ===== src/Farm/Wake.antt =====
-- The wake of one turbine on another, and the power curve: `interaction_area`, `deficiency`,
-- `turbine_power`.
use fode_hpc_wflop.Base.{Bool, if◌then◌else◌}
use fode_hpc_wflop.Double.{Double, ◌⊕◌, ◌⊖◌, ◌⊗◌, ◌⊘◌, nought}

module _ {W : Type 0} ⦃D : Double W⦄ where
  abbrev two : W
  two = D.literal 20 1

  abbrev rotor_diameter : W
  rotor_diameter = D.literal 770 1

  abbrev hub_height : W
  hub_height = D.literal 800 1

  abbrev surface_roughness : W
  surface_roughness = D.literal 25 2 ⊗ D.literal 1 3

  abbrev rotor_radius : W
  rotor_radius = rotor_diameter ⊘ two

  -- `a >= b`
  abbrev at_least : W → W → Bool
  at_least a b = D.le b a

  wake_angle : W → W → W → W
  wake_angle dx radius wake_radius =
      D.acos ((wake_radius ⊗ wake_radius ⊕ dx ⊗ dx ⊖ radius ⊗ radius) ⊘ (two ⊗ wake_radius ⊗ dx))

  rotor_angle : W → W → W → W
  rotor_angle dx radius wake_radius =
      D.acos ((radius ⊗ radius ⊕ dx ⊗ dx ⊖ wake_radius ⊗ wake_radius) ⊘ (two ⊗ radius ⊗ dx))

  unfoldable pub interaction_area : W → W → W → W
  unfolding wake_angle rotor_angle
  interaction_area dx radius wake_radius =
      let alpha = wake_angle dx radius wake_radius in
      let acute = rotor_angle dx radius wake_radius in
      let obtuse = D.pi ⊖ acute in
      if at_least dx (radius ⊕ wake_radius)
      then nought
      else if at_least dx (D.sqrt (wake_radius ⊗ wake_radius ⊖ radius ⊗ radius))
      then alpha ⊗ wake_radius ⊗ wake_radius
        ⊕ acute ⊗ radius ⊗ radius
        ⊖ wake_radius ⊗ dx ⊗ D.sin alpha
      else if at_least dx (wake_radius ⊖ radius)
      then D.pi ⊗ radius ⊗ radius
        ⊖ (obtuse ⊗ radius ⊗ radius
            ⊕ wake_radius ⊗ dx ⊗ D.sin alpha
            ⊖ alpha ⊗ wake_radius ⊗ wake_radius)
      else D.pi ⊗ radius ⊗ radius

  unfoldable pub deficiency : W → W → W
  unfolding interaction_area
  deficiency dx dy =
      let entrainment = D.literal 5 1 ⊘ D.log (hub_height ⊘ surface_roughness) in
      let wake_radius = rotor_radius ⊕ entrainment ⊗ dy in
      let area = interaction_area dx rotor_radius wake_radius in
      if D.eq dy nought
      then nought
      else two
        ⊘ D.literal 30 1
        ⊗ (rotor_radius ⊗ rotor_radius)
        ⊘ (wake_radius ⊗ wake_radius)
        ⊗ area
        ⊘ (D.pi ⊗ rotor_radius ⊗ rotor_radius)

  unfoldable pub turbine_power : W → W
  turbine_power velocity =
      if D.lt velocity two
      then nought
      else if D.lt velocity (D.literal 128 1)
      then D.literal 3 1 ⊗ velocity ⊗ velocity ⊗ velocity
      else if D.lt velocity (D.literal 180 1)
      then D.literal 6291 1
      else nought
