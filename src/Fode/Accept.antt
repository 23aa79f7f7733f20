-- ===== src/Fode/Accept.antt =====
-- What the children of a generation change: the best layout, the population, the success memory.
pub mod Keeps
use fode_hpc_wflop.Base.{
  ℕ, ◌+◌, ◌%◌, Bool, ◌||◌, ◌&&◌, List, [], ◌∷◌, map, if◌then◌else◌, get_or, set, ℤ,
}
use fode_hpc_wflop.Double.{Double, ◌⊕◌, ◌⊖◌, ◌⊗◌, ◌⊘◌, nought, minus_unity, max_double}
use fode_hpc_wflop.Fode.Grid.{Matrix}
use fode_hpc_wflop.Fode.Sample.{Sample, memory_size}

-- The best fitness of the search and its layout.
pub record Best (W : Type 0) : Type 0 where
  pub best_fitness : W
  pub best_layout : List ℤ

pub record Memory (W : Type 0) : Type 0 where
  pub memory_sf : List W
  pub memory_cr : List W
  pub memory_position : ℕ

pub record Sums (W : Type 0) : Type 0 where
  pub difference_sum : W
  pub weighted_f : W
  pub weighted_f2 : W
  pub weighted_cr : W
  pub weighted_cr2 : W
  pub max_good_cr : W

-- Accepted entries of the first list replace those of the second.
unfoldable pub replace_accepted {ℓ} : {A : Type ℓ} → List Bool → List A → List A → List A
replace_accepted (flag ∷ flags) (new ∷ news) (old ∷ olds) =
    (if flag then new else old) ∷ replace_accepted flags news olds
replace_accepted _ _ olds = olds

module _ {W : Type 0} ⦃D : Double W⦄ where
  -- The loop over the completed children: a better one becomes the best.
  unfoldable pub track_best : Best W → List W → Matrix W → Best W
  track_best best (value ∷ fitness) (row ∷ candidates) =
      track_best
        (if D.lt best.best_fitness value
          then record { best_fitness = value; best_layout = map D.round_int row }
          else best)
        fitness candidates
  track_best best _ _ = best

  -- `accepted`: which children are better than their parents
  unfoldable pub accepted_flags : List W → List W → List Bool
  accepted_flags (child ∷ children) (previous ∷ fitness) =
      D.lt previous child ∷ accepted_flags children fitness
  accepted_flags _ _ = []

  unfoldable pub differences : List W → List W → List W
  differences (child ∷ children) (previous ∷ fitness) =
      D.abs (previous ⊖ child) ∷ differences children fitness
  differences _ _ = []

  pub sum_accepted : List Bool → List W → List (Sample W) → Sums W → Sums W
  sum_accepted (flag ∷ flags) (weight ∷ weights) (s ∷ samples) t =
      sum_accepted flags weights samples (
        if flag
        then record {
          difference_sum = t.difference_sum ⊕ weight;
          weighted_f = t.weighted_f ⊕ weight ⊗ s.sf;
          weighted_f2 = t.weighted_f2 ⊕ weight ⊗ s.sf ⊗ s.sf;
          weighted_cr = t.weighted_cr ⊕ weight ⊗ s.cr;
          weighted_cr2 = t.weighted_cr2 ⊕ weight ⊗ s.cr ⊗ s.cr;
          max_good_cr = max_double t.max_good_cr s.cr;
        }
        else t)
  sum_accepted _ _ _ t = t

  pub no_sums : Sums W
  no_sums = record {
    difference_sum = nought;
    weighted_f = nought;
    weighted_f2 = nought;
    weighted_cr = nought;
    weighted_cr2 = nought;
    max_good_cr = nought;
  }

  pub store_sums : Sums W → Memory W → Memory W
  store_sums t m =
      let p = m.memory_position in
      if D.lt nought t.difference_sum && D.lt nought t.weighted_f
      then record {
        memory_sf = set m.memory_sf p (t.weighted_f2 ⊘ t.weighted_f);
        memory_cr =
            if D.eq t.max_good_cr nought || D.eq (get_or m.memory_cr p nought) minus_unity
            then set m.memory_cr p minus_unity
            else if D.lt nought t.weighted_cr
            then set m.memory_cr p (t.weighted_cr2 ⊘ t.weighted_cr)
            else m.memory_cr;
        memory_position = (p + 1) % memory_size;
      }
      else m

  unfoldable pub update_memory : List Bool → List W → List (Sample W) → Memory W → Memory W
  unfolding sum_accepted no_sums store_sums
  update_memory accepted difference samples m =
      store_sums (sum_accepted accepted difference samples no_sums) m
