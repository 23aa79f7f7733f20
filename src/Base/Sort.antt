-- ===== src/Base/Sort.antt =====
-- std::stable_sort by its documented result: the items in the order of a comparison, those that
-- compare equal in their old order.
pub mod Laws
use fode_hpc_wflop.Base.{suc, ◌≡◌, refl, Bool, List, [], ◌∷◌, length, if◌then◌else◌, arith}

module _ {ℓ} {A : Type ℓ} (before : A → A → Bool) where
  unfoldable pub insert_sorted : A → List A → List A
  insert_sorted a [] = a ∷ []
  insert_sorted a (x ∷ xs) = if before x a then x ∷ insert_sorted a xs else a ∷ x ∷ xs

  unfoldable pub stable_sort : List A → List A
  unfolding insert_sorted
  stable_sort [] = []
  stable_sort (x ∷ xs) = insert_sorted x (stable_sort xs)

  length-insert_sorted : (a : A) (xs : List A) → length (insert_sorted a xs) ≡ suc (length xs)
  unfolding insert_sorted
  length-insert_sorted a [] = refl
  length-insert_sorted a (x ∷ xs) = ground (arith, length-insert_sorted a xs)

  pub length-stable_sort : (xs : List A) → length (stable_sort xs) ≡ length xs
  unfolding stable_sort
  length-stable_sort [] = refl
  length-stable_sort (x ∷ xs) =
      omega (arith, length-insert_sorted x (stable_sort xs), length-stable_sort xs)
