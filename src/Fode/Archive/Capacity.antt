-- ===== src/Fode/Archive/Capacity.antt =====
-- The archive stays within its capacity, and takes no row that it already has.
use fode_hpc_wflop.Base.{
  leb, if◌then◌else◌, leb→le, Bool-cases, length, get_or, take, All, range, length-take, length-map,
  All-append, ℤ, pos, negsuc, pos_part, ℕ, zero, suc, ◌≤◌, ◌≡◌, inl, inr, Bool, true, false, List,
  [], ◌∷◌, ◌++◌, arith,
}
use fode_hpc_wflop.Double.{Double}
use fode_hpc_wflop.Base.Sort.{stable_sort}
use fode_hpc_wflop.Rng.Generator.{Generator}
use fode_hpc_wflop.Fode.Grid.{Matrix}
use fode_hpc_wflop.Fode.Archive.{
  equal_row, has_row, add_accepted, trim_before, trim, update_archive,
}

-- No row equals, coordinate by coordinate, one that stands before it.
abbrev pub Unique : {W : Type 0} ⦃D : Double W⦄ → Matrix W → Type 0
Unique [] = Unit
Unique (row ∷ rows) = All (λ later. equal_row row later ≡ false) rows × Unique rows

module _ {W : Type 0} ⦃D : Double W⦄ where
  append-Unique :
      (rows : Matrix W) (row : List W)
      → Unique rows
      → has_row rows row ≡ false
      → Unique (rows ++ row ∷ [])
  unfolding has_row
  append-Unique [] row u h = (tt, tt)
  append-Unique (first ∷ rows) row (a, u) h = (
    All-append (λ later. equal_row first later ≡ false) rows (row ∷ []) a (ground arith, tt),
    append-Unique rows row u (ground arith),
  )

  added_row :
      (combined : Matrix W) (row : List W) (accepted : Bool)
      → Unique combined
      → Unique (
          if accepted
          then (if has_row combined row then combined else combined ++ row ∷ [])
          else combined)
  added_row combined row false u = u
  added_row combined row true u = elim (Bool-cases (has_row combined row)) [
    | inl known ↦ rw known u
    | inr new ↦ rw new (append-Unique combined row u new)
  ]

  -- The replaced parents join an archive without a repeated row without repeating one: no row of
  -- the result equals, coordinate by coordinate, one that stands before it.
  pub add_accepted-Unique :
      (combined parents : Matrix W) (flags : List Bool)
      → Unique combined
      → Unique (add_accepted combined parents flags)
  unfolding add_accepted
  add_accepted-Unique combined [] flags u = u
  add_accepted-Unique combined (row ∷ parents) [] u = u
  add_accepted-Unique combined (row ∷ parents) (f ∷ flags) u =
      add_accepted-Unique
        (if f then (if has_row combined row then combined else combined ++ row ∷ []) else combined)
        parents flags (added_row combined row f u)

  length-trim :
      (rng : Generator) (capacity generation : ℕ) (combined : Matrix W)
      → length (trim rng capacity generation combined) ≤ capacity
  unfolding trim
  length-trim rng capacity generation combined =
      let order = stable_sort (trim_before rng generation) (range (length combined)) in
      omega (
        arith,
        length-map (λ row. get_or combined row []) (take capacity order),
        length-take capacity order,
      )

  -- After `update_archive` the archive has at most as many rows as its capacity, and none where the
  -- capacity is not positive.
  pub length-update_archive :
      (rng : Generator) (archive parents : Matrix W) (accepted : List Bool) (capacity : ℤ)
      (generation : ℕ)
      → length (update_archive rng archive parents accepted capacity generation) ≤ pos_part capacity
  unfolding update_archive
  length-update_archive rng archive parents accepted (negsuc n) generation = omega arith
  length-update_archive rng archive parents accepted (pos zero) generation = omega arith
  length-update_archive rng archive parents accepted (pos (suc n)) generation =
      elim (Bool-cases (leb (length (add_accepted archive parents accepted)) (suc n))) [
        | inl fits ↦ rw fits (leb→le _ _ fits)
        | inr over ↦
            rw over (length-trim rng (suc n) generation (add_accepted archive parents accepted))
      ]
