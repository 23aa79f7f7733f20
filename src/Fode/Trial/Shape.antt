-- ===== src/Fode/Trial/Shape.antt =====
-- Each trial matrix has a full row for every sample.
use fode_hpc_wflop.Base.{
  length, All, range, length-map, length-range_from, ℕ, suc, ◌≡◌, refl, ap, ◌∙◌, List, [], ◌∷◌,
}
use fode_hpc_wflop.Double.{Double}
use fode_hpc_wflop.Rng.Generator.{Generator}
use fode_hpc_wflop.Fode.Grid.{Matrix}
use fode_hpc_wflop.Fode.State.{History}
use fode_hpc_wflop.Fode.Sample.{Sample}
use fode_hpc_wflop.Fode.Trial.{Trial, rows_of, trials}

pub record HasShape {W : Type 0} (size dimension : ℕ) (t : Trial W) : Type 0 where
  pub dp_rows : length t.dp_current ≡ size
  pub da_rows : length t.da_current ≡ size
  pub rows : length t.candidate ≡ size
  pub columns : All (λ row. length row ≡ dimension) t.candidate

module _ {W : Type 0} ⦃D : Double W⦄ (rng : Generator) (generation iteration : ℕ)
    (parent all : Matrix W) (dp da : History W) where
  length-rows_of :
      (value : Sample W → ℕ → ℕ → W) (dimension individual : ℕ) (samples : List (Sample W))
      → length
          (rows_of rng generation iteration parent all dp da value dimension individual samples)
        ≡ length samples
  unfolding rows_of
  length-rows_of value dimension individual [] = refl
  length-rows_of value dimension individual (s ∷ samples) =
      ap suc (length-rows_of value dimension (suc individual) samples)

  columns-rows_of :
      (value : Sample W → ℕ → ℕ → W) (dimension individual : ℕ) (samples : List (Sample W))
      → All
          (λ row. length row ≡ dimension)
          (rows_of rng generation iteration parent all dp da value dimension individual samples)
  unfolding rows_of
  columns-rows_of value dimension individual [] = tt
  columns-rows_of value dimension individual (s ∷ samples) = (
    length-map (value s individual) (range dimension) ∙ length-range_from 0 dimension,
    columns-rows_of value dimension (suc individual) samples,
  )

  -- Both difference matrices and the matrix of trial vectors have one row for each sample, and each
  -- trial vector has one coordinate for each turbine.
  pub trials-HasShape :
      (dimension : ℕ) (samples : List (Sample W))
      → HasShape
          (length samples)
          dimension
          (trials rng generation iteration parent all dp da dimension samples)
  unfolding trials
  trials-HasShape dimension samples = record {
    dp_rows = length-rows_of _ dimension 0 samples;
    da_rows = length-rows_of _ dimension 0 samples;
    rows = length-rows_of _ dimension 0 samples;
    columns = columns-rows_of _ dimension 0 samples;
  }
