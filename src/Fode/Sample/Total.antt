-- ===== src/Fode/Sample/Total.antt =====
-- The rejection loops of the sampling stage end where the draws of the seed pass in time, and the
-- rows that they choose are different and in range.
use fode_hpc_wflop.Base.{
  ◌==◌, Bool-cases, length, get_or, All, All-get_or, Result, ok, ℕ, zero, suc, ◌+◌, ◌≤◌, ◌<◌, ◌≡◌,
  refl, sym, ap, ◌∙◌, ◌≢◌, inl, inr, Bool, true, false, ◌||◌, List, arith,
}
use fode_hpc_wflop.Double.{Double, nought, unity, min_double}
use fode_hpc_wflop.Double.Laws.{NotNegative, HasSigns}
use fode_hpc_wflop.Rng.Generator.{Generator, key}
use fode_hpc_wflop.Fode.Phase
use fode_hpc_wflop.Fode.Sample.{
  sample_cr, Sample, memory_size, first_accepted, cauchy_draw, sample_sf, sample_individual,
}

-- The first draw that passes, where one of the next `fuel` draws does.
pub record Accepted {ℓ} {A : Type ℓ} (draws : ℕ → A) (rejected : A → Bool) (r : Result A)
    : Type ℓ where
  pub draw : ℕ
  pub returned : r ≡ ok (draws draw)
  pub passed : rejected (draws draw) ≡ false

-- When one of the draws that the fuel reaches passes, the rejection loop returns a draw, and the
-- draw that it returns passes.
pub first_accepted-Accepted {ℓ} :
    {A : Type ℓ} (fuel : ℕ) (draws : ℕ → A) (rejected : A → Bool) (start d : ℕ)
    → start ≤ d
    → d < start + fuel
    → rejected (draws d) ≡ false
    → Accepted draws rejected (first_accepted fuel draws rejected start)
unfolding first_accepted
first_accepted-Accepted zero draws rejected start d p q e = absurd (omega arith)
first_accepted-Accepted (suc fuel) draws rejected start d p q e =
    elim (Bool-cases (rejected (draws start))) [
      | inl no_pass ↦ rw no_pass (
          first_accepted-Accepted fuel draws rejected (suc start) d (later no_pass) (omega arith) e)
      | inr pass ↦ rw pass (record { draw = start; returned = refl; passed = pass })
    ]
  where
    later : rejected (draws start) ≡ true → suc start ≤ d
    later t = omega (arith, other t)
      where
        other : rejected (draws start) ≡ true → start ≢ d
        other u s =
            let v : rejected (draws d) ≡ true = ap (λ k. rejected (draws k)) (sym s) ∙ u in cc

-- What the seed's draws must do: within `rounds` draws a Cauchy sample around a location that is not
-- negative is positive, and an index below a count of three or more avoids two given ones.
pub record Accepts (W : Type 0) ⦃D : Double W⦄ (rng : Generator) (rounds : ℕ) : Type 0 where
  pub cauchy :
      (mu : W) (generation individual : ℕ)
      → NotNegative mu
      → (d : ℕ) × (d < rounds)
        × (D.le (cauchy_draw rng rounds generation mu individual d) nought ≡ false)
  pub index :
      (generation phase individual count a b : ℕ)
      → 3 ≤ count
      → (d : ℕ) × (d < rounds)
        × (rng.integer 0 count (key generation phase individual 0 d) ≢ a)
        × (rng.integer 0 count (key generation phase individual 0 d) ≢ b)

-- A sample whose rows can be used: they exist, and the three of a difference are different.
pub record IsSample {W : Type 0} ⦃D : Double W⦄ (size all_rows dimension individual : ℕ)
    (s : Sample W) : Type 0 where
  pub sf_sign : NotNegative s.sf
  pub r1_range : s.r1 < size
  pub r1_other : s.r1 ≢ individual
  pub r2_range : s.r2 < all_rows
  pub r2_other : s.r2 ≢ individual
  pub r2-ne-r1 : s.r2 ≢ s.r1
  pub jrand_range : s.jrand < dimension

pub record Sampled {W : Type 0} ⦃D : Double W⦄ (size all_rows dimension individual : ℕ)
    (r : Result (Sample W)) : Type 0 where
  pub sample : Sample W
  pub returned : r ≡ ok sample
  pub valid : IsSample size all_rows dimension individual sample

module _ {W : Type 0} ⦃D : Double W⦄ (signs : HasSigns W) (rng : Generator) (rounds generation : ℕ)
    (accepts : Accepts W rng rounds) where
  record Positive (r : Result W) : Type 0 where
    value : W
    returned : r ≡ ok value
    sign : NotNegative value

  capped : (x : W) → D.le x nought ≡ false → NotNegative (min_double x unity)
  capped x h = ground (arith, signs.lt_le x nought, signs.literal 10 1)

  sample_sf-Positive :
      (mu : W) (individual : ℕ)
      → NotNegative mu
      → Positive (sample_sf rng rounds generation mu individual)
  unfolding sample_sf
  sample_sf-Positive mu individual h = record {
    value = min_double (cauchy_draw rng rounds generation mu individual a.draw) unity;
    returned = rw a.returned;
    sign = capped (cauchy_draw rng rounds generation mu individual a.draw) a.passed;
  }
    where
      first :
          (d : ℕ) × (d < rounds)
          × (D.le (cauchy_draw rng rounds generation mu individual d) nought ≡ false)
      first = accepts.cauchy mu generation individual h

      a :
          Accepted
            (cauchy_draw rng rounds generation mu individual)
            (λ s. D.le s nought)
            (first_accepted rounds
              (cauchy_draw rng rounds generation mu individual)
              (λ s. D.le s nought)
              0)
      a =
          first_accepted-Accepted rounds _ _ 0 first.0 (omega arith) (omega (arith, first.1))
            first.2

  -- A draw of an index that avoids two others.
  abbrev index_draw : ℕ → ℕ → ℕ → ℕ → ℕ
  index_draw phase individual count draw =
      rng.integer 0 count (key generation phase individual 0 draw)

  record Chosen (count a b : ℕ) (r : Result ℕ) : Type 0 where
    value : ℕ
    returned : r ≡ ok value
    range : value < count
    other : value ≢ a
    others : value ≢ b

  choose :
      (phase individual count a b : ℕ) (rejected : ℕ → Bool)
      → 3 ≤ count
      → ((v : ℕ) → v ≢ a → v ≢ b → rejected v ≡ false)
      → ((v : ℕ) → rejected v ≡ false → (v ≢ a) × (v ≢ b))
      → Chosen count a b (first_accepted rounds (index_draw phase individual count) rejected 0)
  choose phase individual count a b rejected h pass back = record {
    value = index_draw phase individual count c.draw;
    returned = c.returned;
    range = (rng.integer_range 0 count (key generation phase individual 0 c.draw) (omega arith)).1;
    other = (back _ c.passed).0;
    others = (back _ c.passed).1;
  }
    where
      first :
          (d : ℕ) × (d < rounds)
          × (index_draw phase individual count d ≢ a)
          × (index_draw phase individual count d ≢ b)
      first = accepts.index generation phase individual count a b h

      c :
          Accepted
            (index_draw phase individual count)
            rejected
            (first_accepted rounds (index_draw phase individual count) rejected 0)
      c =
          first_accepted-Accepted rounds _ rejected 0 first.0 (omega arith) (omega (arith, first.1))
            (pass _ first.2 first.3)

  -- Sampling one individual of three or more always returns, with rows that can be used.
  pub sample_individual-Sampled :
      (memory_sf memory_cr : List W) (ranking : List ℕ)
      (all_rows pbest_count dimension individual : ℕ)
      → All NotNegative memory_sf
      → length memory_sf ≡ memory_size
      → 3 ≤ length ranking
      → 3 ≤ all_rows
      → 0 < dimension
      → Sampled (length ranking) all_rows dimension individual (
          sample_individual rng rounds generation memory_sf memory_cr ranking all_rows pbest_count
            dimension individual)
  unfolding sample_individual
  sample_individual-Sampled memory_sf memory_cr ranking all_rows pbest_count dimension individual
        signed long h k g =
      record {
        sample = found;
        returned = rw sf.returned (rw r1.returned (rw r2.returned));
        valid = record {
          sf_sign = sf.sign;
          r1_range = r1.range;
          r1_other = r1.other;
          r2_range = r2.range;
          r2_other = r2.other;
          r2-ne-r1 = r2.others;
          jrand_range =
              (rng.integer_range 0 dimension (key generation Phase.j_rand individual 0 0) g).1;
        };
      }
    where
      memory : ℕ
      memory = rng.integer 0 memory_size (key generation Phase.memory_index individual 0 0)

      sf : Positive (sample_sf rng rounds generation (get_or memory_sf memory nought) individual)
      sf = sample_sf-Positive _ individual (
          All-get_or NotNegative memory_sf memory nought signed (
            omega (
              arith,
              long,
              rng.integer_range 0 memory_size (key generation Phase.memory_index individual 0 0)
                  (omega arith),
            )))

      r1 : Chosen (length ranking) individual individual (
          first_accepted rounds
            (index_draw Phase.r1 individual (length ranking))
            (λ c. c == individual)
            0)
      r1 =
          choose Phase.r1 individual (length ranking) individual individual (λ c. c == individual) h
            (λ v p q. ground arith) (λ v e. ground arith)

      r2 : Chosen all_rows individual r1.value (
          first_accepted rounds
            (index_draw Phase.r2 individual all_rows)
            (λ c. c == individual || c == r1.value)
            0)
      r2 =
          choose Phase.r2 individual all_rows individual r1.value
            (λ c. c == individual || c == r1.value) k (λ v p q. ground arith) (λ v e. ground arith)

      found : Sample W
      found = record {
        cr = sample_cr rng rounds generation (get_or memory_cr memory nought) individual;
        sf = sf.value;
        r1 = r1.value;
        r2 = r2.value;
        pbest_row =
            get_or ranking (rng.integer 0 pbest_count (key generation Phase.p_best individual 0 0))
              0;
        jrand = rng.integer 0 dimension (key generation Phase.j_rand individual 0 0);
      }
