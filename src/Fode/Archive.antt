-- ===== src/Fode/Archive.antt =====
-- `update_archive` of optimizer.cpp: replaced parents, each once, cut to the capacity at random.
pub mod Capacity
use fode_hpc_wflop.Base.{
  ℕ, zero, suc, Bool, true, false, ◌||◌, ◌&&◌, List, [], ◌∷◌, ◌++◌, map, ltb, leb, ◌==◌,
  if◌then◌else◌, length, take, range, get_or, ℤ, pos, negsuc,
}
use fode_hpc_wflop.Base.Sort.{stable_sort}
use fode_hpc_wflop.Double.{Double}
use fode_hpc_wflop.Rng.Generator.{Generator, key}
use fode_hpc_wflop.Fode.Phase
use fode_hpc_wflop.Fode.Grid.{Matrix}

-- the rows' order by random key, then by number
trim_before : Generator → ℕ → ℕ → ℕ → Bool
trim_before rng generation lhs rhs =
    let lkey = rng.uniform (key generation Phase.archive_trim lhs 0 0) in
    let rkey = rng.uniform (key generation Phase.archive_trim rhs 0 0) in
    if lkey == rkey then ltb lhs rhs else ltb lkey rkey

module _ {W : Type 0} ⦃D : Double W⦄ where
  pub equal_row : List W → List W → Bool
  equal_row (x ∷ xs) (y ∷ ys) = D.eq x y && equal_row xs ys
  equal_row _ _ = true

  -- the search for a duplicate
  pub has_row : Matrix W → List W → Bool
  unfolding equal_row
  has_row [] row = false
  has_row (existing ∷ rows) row = equal_row existing row || has_row rows row

  -- The loop over the individuals: the parents that were replaced join the archive.
  unfoldable pub add_accepted : Matrix W → Matrix W → List Bool → Matrix W
  unfolding has_row
  add_accepted combined (row ∷ parents) (accepted ∷ flags) =
      add_accepted
        (if accepted
          then (if has_row combined row then combined else combined ++ row ∷ [])
          else combined)
        parents flags
  add_accepted combined _ _ = combined

  trim : Generator → ℕ → ℕ → Matrix W → Matrix W
  unfolding trim_before
  trim rng capacity generation combined =
      map (λ row. get_or combined row [])
        (take capacity (stable_sort (trim_before rng generation) (range (length combined))))

  unfoldable pub update_archive : Generator → Matrix W → Matrix W → List Bool → ℤ → ℕ → Matrix W
  unfolding add_accepted trim
  update_archive rng archive parents accepted (negsuc n) generation = []
  update_archive rng archive parents accepted (pos zero) generation = []
  update_archive rng archive parents accepted (pos (suc n)) generation =
      let combined = add_accepted archive parents accepted in
      if leb (length combined) (suc n) then combined else trim rng (suc n) generation combined
