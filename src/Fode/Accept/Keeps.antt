-- ===== src/Fode/Accept/Keeps.antt =====
-- What selection keeps: sizes, the sign of the success memory, the feasibility of the best layout.
use fode_hpc_wflop.Base.{
  if◌then◌else◌, Bool-cases, length, All, length-set, All-set, ℤ, pos, ℕ, suc, ◌≡◌, refl, ap, ◌∙◌,
  inl, inr, Bool, true, false, ◌&&◌, List, [], ◌∷◌, map, arith,
}
use fode_hpc_wflop.Case.{CaseData}
use fode_hpc_wflop.Double.{Double, nought}
use fode_hpc_wflop.Double.Laws.{NotNegative, HasSigns, IsExact}
use fode_hpc_wflop.Farm.Evaluate.Feasible.{round_layout}
use fode_hpc_wflop.Fode.Grid.{Matrix, IsCase, IsFeasible, IsLayoutRow}
use fode_hpc_wflop.Fode.Sample.{Sample}
use fode_hpc_wflop.Fode.Accept.{
  Best, Memory, Sums, track_best, differences, replace_accepted, sum_accepted, no_sums, store_sums,
  update_memory,
}

pub length-replace_accepted {ℓ} :
    {A : Type ℓ} (flags : List Bool) (news olds : List A)
    → length (replace_accepted flags news olds) ≡ length olds
unfolding replace_accepted
length-replace_accepted [] news olds = refl
length-replace_accepted (f ∷ flags) [] olds = refl
length-replace_accepted (f ∷ flags) (n ∷ news) [] = refl
length-replace_accepted (f ∷ flags) (n ∷ news) (o ∷ olds) =
    ap suc (length-replace_accepted flags news olds)

pub replace_accepted-All {ℓ κ} :
    {A : Type ℓ} (P : A → Type κ) (flags : List Bool) (news olds : List A)
    → All P news
    → All P olds
    → All P (replace_accepted flags news olds)
unfolding replace_accepted
replace_accepted-All P [] news olds n o = o
replace_accepted-All P (f ∷ flags) [] olds n o = o
replace_accepted-All P (f ∷ flags) (x ∷ news) [] n o = tt
replace_accepted-All P (true ∷ flags) (x ∷ news) (y ∷ olds) (p, n) (q, o) =
    (p, replace_accepted-All P flags news olds n o)
replace_accepted-All P (false ∷ flags) (x ∷ news) (y ∷ olds) (p, n) (q, o) =
    (q, replace_accepted-All P flags news olds n o)

-- The cells of a feasible layout, as the ints of the result.
pub record IsLayout {W : Type 0} (farm : CaseData W) (layout : List ℤ) : Type 0 where
  pub cells : List ℕ
  pub spelled : layout ≡ map pos cells
  pub feasible : IsFeasible farm cells

module _ {W : Type 0} ⦃D : Double W⦄ (exact : IsExact D) (farm : CaseData W)
    (valid : IsCase farm) where
  pub IsLayout-of_row : (row : List W) → IsLayoutRow farm row → IsLayout farm (map D.round_int row)
  IsLayout-of_row row l = record {
    cells = l.cells;
    spelled = round_layout exact farm valid row l;
    feasible = l.feasible;
  }

  better-IsLayout :
      (best : Best W) (value : W) (row : List W)
      → IsLayout farm best.best_layout
      → IsLayoutRow farm row
      → IsLayout farm
          (if D.lt best.best_fitness value
            then record { best_fitness = value; best_layout = map D.round_int row }
            else best).best_layout
  better-IsLayout best value row h l = elim (Bool-cases (D.lt best.best_fitness value)) [
    | inl better ↦ rw better (IsLayout-of_row row l)
    | inr worse ↦ rw worse h
  ]

  -- With doubles that hold every int exactly, and whatever the fitness values are, the best layout
  -- of the search stays a feasible layout of an admitted case when the rows of the children are
  -- feasible layouts.
  pub track_best-IsLayout :
      (best : Best W) (fitness : List W) (candidates : Matrix W)
      → IsLayout farm best.best_layout
      → All (IsLayoutRow farm) candidates
      → IsLayout farm (track_best best fitness candidates).best_layout
  unfolding track_best
  track_best-IsLayout best [] candidates h l = h
  track_best-IsLayout best (v ∷ fitness) [] h l = h
  track_best-IsLayout best (v ∷ fitness) (row ∷ candidates) h (l, ls) =
      track_best-IsLayout
        (if D.lt best.best_fitness v
          then record { best_fitness = v; best_layout = map D.round_int row }
          else best)
        fitness candidates (better-IsLayout best v row h l) ls

-- The success memory of the scale factors: as long as before, and without a negative value.
pub record IsMemory {W : Type 0} ⦃D : Double W⦄ (size : ℕ) (memory : List W) : Type 0 where
  pub long : length memory ≡ size
  pub signed : All NotNegative memory

module _ {W : Type 0} ⦃D : Double W⦄ (signs : HasSigns W) where
  differences-signs : (children fitness : List W) → All NotNegative (differences children fitness)
  unfolding differences
  differences-signs [] fitness = tt
  differences-signs (c ∷ children) [] = tt
  differences-signs (c ∷ children) (f ∷ fitness) = (signs.abs _, differences-signs children fitness)

  sum_accepted-sign :
      (flags : List Bool) (weights : List W) (samples : List (Sample W)) (t : Sums W)
      → All NotNegative weights
      → All (λ s. NotNegative s.sf) samples
      → NotNegative t.weighted_f2
      → NotNegative (sum_accepted flags weights samples t).weighted_f2
  unfolding sum_accepted
  sum_accepted-sign [] weights samples t a b h = h
  sum_accepted-sign (f ∷ flags) [] samples t a b h = h
  sum_accepted-sign (f ∷ flags) (w ∷ weights) [] t a b h = h
  sum_accepted-sign (true ∷ flags) (w ∷ weights) (s ∷ samples) t (p, a) (q, b) h =
      sum_accepted-sign flags weights samples _ a b
        (signs.add _ _ h (signs.mul _ _ (signs.mul _ _ p q) q))
  sum_accepted-sign (false ∷ flags) (w ∷ weights) (s ∷ samples) t (p, a) (q, b) h =
      sum_accepted-sign flags weights samples t a b h

  store_sums-IsMemory :
      (size : ℕ) (t : Sums W) (m : Memory W)
      → NotNegative t.weighted_f2
      → IsMemory size m.memory_sf
      → IsMemory size (store_sums t m).memory_sf
  unfolding store_sums
  store_sums-IsMemory size t m h v =
      elim (Bool-cases (D.lt nought t.difference_sum && D.lt nought t.weighted_f)) [
        | inl stored ↦ rw stored (record {
          long = length-set m.memory_sf m.memory_position _ ∙ v.long;
          signed =
              All-set NotNegative m.memory_sf m.memory_position _ v.signed
                (signs.div t.weighted_f2 t.weighted_f h (ground arith));
        })
        | inr kept ↦ rw kept v
      ]

  -- When the scale factors of the samples and of the memory are not negative, those of the memory
  -- are not negative after the update either, and their number is unchanged.
  pub update_memory-IsMemory :
      (size : ℕ) (accepted : List Bool) (children fitness : List W) (samples : List (Sample W))
      (m : Memory W)
      → All (λ s. NotNegative s.sf) samples
      → IsMemory size m.memory_sf
      → IsMemory size (update_memory accepted (differences children fitness) samples m).memory_sf
  unfolding update_memory
  update_memory-IsMemory size accepted children fitness samples m h v =
      store_sums-IsMemory size _ m
        (sum_accepted-sign accepted _ samples no_sums (differences-signs children fitness) h
          (signs.literal 0 1))
        v
