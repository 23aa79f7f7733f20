-- ===== src/Fode/Sample.antt =====
-- The parameters that one individual draws in a generation of `optimize_fode_hpc`. A rejection loop
-- has `rounds` draws; the program has no limit.
pub mod Total
pub mod Whole
use fode_hpc_wflop.Base.{
  ℕ, zero, suc, Bool, ◌||◌, List, [], ◌∷◌, ◌==◌, if◌then◌else◌, length, get_or, Result, ok, err,
  out_of_fuel, ◌>>=◌,
}
use fode_hpc_wflop.Double.{Double, ◌⊕◌, ◌⊖◌, ◌⊗◌, nought, unity, minus_unity, clamp, min_double}
use fode_hpc_wflop.Fode.Phase
use fode_hpc_wflop.Rng.Generator.{Generator, key, draw_uniform, normal}

abbrev pub memory_size : ℕ
memory_size = 5

pub record Sample (W : Type 0) : Type 0 where
  pub cr : W
  pub sf : W
  pub r1 : ℕ
  pub r2 : ℕ
  pub pbest_row : ℕ
  pub jrand : ℕ

-- `do draw while (rejected)`: the first draw that passes.
unfoldable pub first_accepted {ℓ} : {A : Type ℓ} → ℕ → (ℕ → A) → (A → Bool) → ℕ → Result A
first_accepted zero draws rejected draw = err out_of_fuel
first_accepted (suc fuel) draws rejected draw =
    let rest = first_accepted fuel draws rejected (suc draw) in
    if rejected (draws draw) then rest else ok (draws draw)

module _ {W : Type 0} ⦃D : Double W⦄ (rng : Generator) (rounds generation : ℕ) where
  pub sample_cr : W → ℕ → W
  sample_cr mu_cr individual =
      let sampled =
        mu_cr ⊕ D.literal 1 1 ⊗ normal rng (key generation Phase.normal_cr individual 0 0) in
      clamp (if D.eq mu_cr minus_unity then nought else sampled) nought unity

  -- `mu_sf + 0.1 * tan(pi * (u - 0.5))`
  unfoldable pub cauchy_draw : W → ℕ → ℕ → W
  cauchy_draw mu_sf individual draw =
      let u = draw_uniform rng (key generation Phase.cauchy_sf individual 0 draw) in
      mu_sf ⊕ D.literal 1 1 ⊗ D.tan (D.pi ⊗ (u ⊖ D.literal 5 1))

  pub sample_sf : W → ℕ → Result W
  unfolding first_accepted cauchy_draw
  sample_sf mu_sf individual = do
    sampled ←
        first_accepted rounds (cauchy_draw mu_sf individual) (λ sampled_sf. D.le sampled_sf nought)
          0
    ok (min_double sampled unity)

  -- The body of the sampling loop, for one individual.
  unfoldable pub sample_individual : List W → List W → List ℕ → ℕ → ℕ → ℕ → ℕ → Result (Sample W)
  unfolding sample_cr sample_sf first_accepted
  sample_individual memory_sf memory_cr ranking all_rows pbest_count dimension individual = do
    let old_population_size = length ranking
    let memory_index = rng.integer 0 memory_size (key generation Phase.memory_index individual 0 0)
    let cr = sample_cr (get_or memory_cr memory_index nought) individual
    sf ← sample_sf (get_or memory_sf memory_index nought) individual
    choice ←
        first_accepted rounds
          (λ draw. rng.integer 0 old_population_size (key generation Phase.r1 individual 0 draw))
          (λ choice. choice == individual) 0
    second ←
        first_accepted rounds
          (λ draw. rng.integer 0 all_rows (key generation Phase.r2 individual 0 draw))
          (λ second. second == individual || second == choice) 0
    let pbest_rank = rng.integer 0 pbest_count (key generation Phase.p_best individual 0 0)
    ok (record {
      cr = cr;
      sf = sf;
      r1 = choice;
      r2 = second;
      pbest_row = get_or ranking pbest_rank 0;
      jrand = rng.integer 0 dimension (key generation Phase.j_rand individual 0 0);
    })

  -- The whole loop, from `individual` on, for so many individuals.
  unfoldable pub sample_all :
      List W → List W → List ℕ → ℕ → ℕ → ℕ → ℕ → ℕ → Result (List (Sample W))
  unfolding sample_individual
  sample_all memory_sf memory_cr ranking all_rows pbest_count dimension individual zero = ok []
  sample_all memory_sf memory_cr ranking all_rows pbest_count dimension individual (suc count) = do
    sample ← sample_individual memory_sf memory_cr ranking all_rows pbest_count dimension individual
    rest ←
        sample_all memory_sf memory_cr ranking all_rows pbest_count dimension (suc individual) count
    ok (sample ∷ rest)
