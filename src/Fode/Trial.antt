-- ===== src/Fode/Trial.antt =====
-- The trial vectors of a generation: `fractional_value`, and the stage that fills `dp_current`,
-- `da_current` and `candidate`.
pub mod Shape
use fode_hpc_wflop.Base.{
  ℕ, suc, not, ◌&&◌, List, [], ◌∷◌, map, leb, ◌==◌, if◌then◌else◌, get_or, range, is_empty,
}
use fode_hpc_wflop.Double.{Double, ◌⊕◌, ◌⊖◌, ◌⊗◌, ◌⊘◌, nought, unity}
use fode_hpc_wflop.Fode.Phase
use fode_hpc_wflop.Rng.Generator.{Generator, key, draw_uniform}
use fode_hpc_wflop.Fode.Grid.{Matrix}
use fode_hpc_wflop.Fode.State.{History}
use fode_hpc_wflop.Fode.Sample.{Sample}

pub record Trial (W : Type 0) : Type 0 where
  pub dp_current : Matrix W
  pub da_current : Matrix W
  pub candidate : Matrix W

module _ {W : Type 0} ⦃D : Double W⦄ where
  -- `matrix[offset(row, col, dimension)]`
  abbrev pub entry : Matrix W → ℕ → ℕ → W
  entry matrix row col = get_or (get_or matrix row []) col nought

  -- kFractionalA
  abbrev fractional_a : W
  fractional_a = D.literal 8 1

  -- `k.0 - kFractionalA`
  abbrev less_a : ℕ → W
  less_a k = D.literal k 1 ⊖ fractional_a

  unfoldable pub fractional_value : W → History W → ℕ → ℕ → ℕ → W
  fractional_value current h row col iteration =
      let r1 = fractional_a ⊗ current in
      let r2 =
        if leb 2 iteration
        then r1 ⊕ D.literal 5 1 ⊗ fractional_a ⊗ less_a 10 ⊗ entry h.h1 row col
        else r1 in
      let r3 =
        if leb 3 iteration && not (is_empty h.h2)
        then r2 ⊕ unity ⊘ D.literal 60 1 ⊗ fractional_a ⊗ less_a 10 ⊗ less_a 20 ⊗ entry h.h2 row col
        else r2 in
      let r4 =
        if leb 4 iteration && not (is_empty h.h3)
        then r3
          ⊕ unity
            ⊘ D.literal 240 1
            ⊗ fractional_a
            ⊗ less_a 10
            ⊗ less_a 20
            ⊗ less_a 30
            ⊗ entry h.h3 row col
        else r3 in
      let r5 =
        if leb 5 iteration && not (is_empty h.h4)
        then r4
          ⊕ unity
            ⊘ D.literal 1200 1
            ⊗ fractional_a
            ⊗ less_a 10
            ⊗ less_a 20
            ⊗ less_a 30
            ⊗ less_a 40
            ⊗ entry h.h4 row col
        else r4 in
      if is_empty h.h1 then current else r5

  module _ (rng : Generator) (generation iteration : ℕ) (parent all : Matrix W)
      (dp da : History W) where
    dp_value : Sample W → ℕ → ℕ → W
    dp_value s individual d = entry parent s.pbest_row d ⊖ entry parent individual d

    da_value : Sample W → ℕ → ℕ → W
    da_value s individual d = entry parent s.r1 d ⊖ entry all s.r2 d

    candidate_value : Sample W → ℕ → ℕ → W
    unfolding dp_value da_value fractional_value
    candidate_value s individual d =
        let fo_dp = fractional_value (dp_value s individual d) dp individual d iteration in
        let fo_da = fractional_value (da_value s individual d) da individual d iteration in
        let value = entry parent individual d ⊕ s.sf ⊗ (fo_dp ⊕ fo_da) in
        let copy_parent =
          D.lt s.cr (draw_uniform rng (key generation Phase.cross individual d 0))
          && not (d == s.jrand) in
        if copy_parent then entry parent individual d else value

    -- The rows of one of the three matrices, for the samples from `individual` on.
    pub rows_of : (Sample W → ℕ → ℕ → W) → ℕ → ℕ → List (Sample W) → Matrix W
    rows_of value dimension individual [] = []
    rows_of value dimension individual (s ∷ samples) =
        map (value s individual) (range dimension)
        ∷ rows_of value dimension (suc individual) samples

    unfoldable pub trials : ℕ → List (Sample W) → Trial W
    unfolding dp_value da_value candidate_value rows_of
    trials dimension samples = record {
      dp_current = rows_of dp_value dimension 0 samples;
      da_current = rows_of da_value dimension 0 samples;
      candidate = rows_of candidate_value dimension 0 samples;
    }
