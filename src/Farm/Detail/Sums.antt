-- ===== src/Farm/Detail/Sums.antt =====
-- The two sorts of hpc/fode_cpp/src/evaluator.cpp, of powers and of turbines by power, agree.
use fode_hpc_wflop.Base.{
  ℕ, zero, suc, ◌≡◌, refl, ap, ◌∙◌, Bool, Bool-cases, inl, inr, List, [], ◌∷◌, map, length, get_or,
  range, range_from,
}
use fode_hpc_wflop.Base.Sort.{insert_sorted, stable_sort}
use fode_hpc_wflop.Case.{CaseData}
use fode_hpc_wflop.Double.{Double, nought, sum_from}
use fode_hpc_wflop.Farm.Fused.{accumulated, layout_fitness}
use fode_hpc_wflop.Farm.Detail.{power_order, layout_detail}

-- Sorting by a key, then reading the keys, is reading the keys, then sorting them.
module _ {A B : Type 0} (f : A → B) (before : B → B → Bool) where
  map-insert_sorted :
      (a : A) (xs : List A)
      → map f (insert_sorted (λ l r. before (f l) (f r)) a xs)
        ≡ insert_sorted before (f a) (map f xs)
  unfolding insert_sorted
  map-insert_sorted a [] = refl
  map-insert_sorted a (x ∷ xs) = elim (Bool-cases (before (f x) (f a))) [
    | inl lower ↦ rw lower (ap (λ t. f x ∷ t) (map-insert_sorted a xs))
    | inr other ↦ rw other refl
  ]

  map-stable_sort :
      (xs : List A)
      → map f (stable_sort (λ l r. before (f l) (f r)) xs) ≡ stable_sort before (map f xs)
  unfolding stable_sort
  map-stable_sort [] = refl
  map-stable_sort (x ∷ xs) =
      map-insert_sorted x (stable_sort (λ l r. before (f l) (f r)) xs)
      ∙ ap (insert_sorted before (f x)) (map-stable_sort xs)

map-range_from :
    {A : Type 0} (g : ℕ → A) (i n : ℕ)
    → map g (range_from (suc i) n) ≡ map (λ k. g (suc k)) (range_from i n)
map-range_from g i zero = refl
map-range_from g i (suc n) = ap (λ t. g (suc i) ∷ t) (map-range_from g (suc i) n)

pub get_or-range :
    {A : Type 0} (xs : List A) (d : A) → map (λ i. get_or xs i d) (range (length xs)) ≡ xs
get_or-range [] d = refl
get_or-range (x ∷ xs) d =
    ap (λ t. x ∷ t) (map-range_from (λ i. get_or (x ∷ xs) i d) 0 (length xs) ∙ get_or-range xs d)

module _ {W : Type 0} ⦃D : Double W⦄ (farm : CaseData W) (indices : List W) where
  powers_sorted :
      (layout_detail farm indices).accumulated_turbine_power_kw
      ≡ stable_sort D.lt (accumulated farm indices)
  unfolding layout_detail power_order
  powers_sorted =
      let power = accumulated farm indices in
      map-stable_sort (λ i. get_or power i nought) D.lt (range (length power))
      ∙ ap (stable_sort D.lt) (get_or-range power nought)

  -- The two sorts of a layout's evaluation agree, for any comparison of the doubles: the powers
  -- that `TotalAndPerTurbine` lists, of the turbines sorted by power, add up from the first to the
  -- fitness that is the sum of the sorted powers.
  pub sum-layout_detail :
      sum_from nought (layout_detail farm indices).accumulated_turbine_power_kw
      ≡ (layout_detail farm indices).fitness
  unfolding layout_detail layout_fitness
  sum-layout_detail = ap (sum_from nought) powers_sorted
