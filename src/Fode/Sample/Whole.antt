-- ===== src/Fode/Sample/Whole.antt =====
-- The whole sampling stage.
use fode_hpc_wflop.Base.{
  length, All, Result, ok, ℕ, zero, suc, ◌≤◌, ◌<◌, ◌≡◌, refl, ap, List, [], ◌∷◌,
}
use fode_hpc_wflop.Double.{Double}
use fode_hpc_wflop.Double.Laws.{NotNegative, HasSigns}
use fode_hpc_wflop.Rng.Generator.{Generator}
use fode_hpc_wflop.Fode.Sample.{Sample, memory_size, sample_all}
use fode_hpc_wflop.Fode.Sample.Total.{Accepts, IsSample, sample_individual-Sampled}

-- The samples of the individuals from `individual` on.
abbrev pub AreSamples : {W : Type 0} ⦃D : Double W⦄ → ℕ → ℕ → ℕ → ℕ → List (Sample W) → Type 0
AreSamples size all_rows dimension individual [] = Unit
AreSamples size all_rows dimension individual (s ∷ samples) =
    IsSample size all_rows dimension individual s
    × AreSamples size all_rows dimension (suc individual) samples

pub record SampledAll {W : Type 0} ⦃D : Double W⦄ (size all_rows dimension individual count : ℕ)
    (r : Result (List (Sample W))) : Type 0 where
  pub samples : List (Sample W)
  pub returned : r ≡ ok samples
  pub counted : length samples ≡ count
  pub valid : AreSamples size all_rows dimension individual samples

pub AreSamples-signs :
    {W : Type 0} ⦃D : Double W⦄ (size all_rows dimension individual : ℕ) (samples : List (Sample W))
    → AreSamples size all_rows dimension individual samples
    → All (λ s. NotNegative s.sf) samples
AreSamples-signs size all_rows dimension individual [] h = tt
AreSamples-signs size all_rows dimension individual (s ∷ samples) (h, hs) =
    (h.sf_sign, AreSamples-signs size all_rows dimension (suc individual) samples hs)

module _ {W : Type 0} ⦃D : Double W⦄ (signs : HasSigns W) (rng : Generator) (rounds generation : ℕ)
    (accepts : Accepts W rng rounds) where
  -- Where the draws of the seed pass the rejection tests within a number of rounds, the sampling
  -- stage returns a sample for each individual: with a memory of five scale factors that are not
  -- negative, three or more ranked rows and rows to choose from, and a turbine at least. Each scale
  -- factor is not negative, `r1` and `r2` are rows that exist, differ from the individual and from
  -- each other, and `jrand` is a column.
  pub sample_all-SampledAll :
      (memory_sf memory_cr : List W) (ranking : List ℕ)
      (all_rows pbest_count dimension individual count : ℕ)
      → All NotNegative memory_sf
      → length memory_sf ≡ memory_size
      → 3 ≤ length ranking
      → 3 ≤ all_rows
      → 0 < dimension
      → SampledAll (length ranking) all_rows dimension individual count (
          sample_all rng rounds generation memory_sf memory_cr ranking all_rows pbest_count
            dimension individual count)
  unfolding sample_all
  sample_all-SampledAll memory_sf memory_cr ranking all_rows pbest_count dimension individual zero
        signed long h k g =
      record { samples = []; returned = refl; counted = refl; valid = tt }
  sample_all-SampledAll memory_sf memory_cr ranking all_rows pbest_count dimension individual
        (suc count) signed long h k g =
      let first =
        sample_individual-Sampled signs rng rounds generation accepts memory_sf memory_cr ranking
          all_rows pbest_count dimension individual signed long h k g in
      let rest =
        sample_all-SampledAll memory_sf memory_cr ranking all_rows pbest_count dimension
          (suc individual) count signed long h k g in
      record {
        samples = first.sample ∷ rest.samples;
        returned = rw (first.returned) (rw rest.returned);
        counted = ap suc rest.counted;
        valid = (first.valid, rest.valid);
      }
