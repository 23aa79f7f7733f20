-- ===== src/Loader/Admits.antt =====
-- The cases that pass the checks of `parse_case` are admitted.
use fode_hpc_wflop.Base.{
  after_check, ok-injective, subst, sym, length-map, Bool-cases, length, All, ℤ, pos, negsuc,
  pos_part, ◌-ℤ◌, ltb_ℤ, ok, ℕ, ◌+◌, ◌*◌, ◌^◌, ◌≤◌, ◌<◌, ◌≡◌, inl, inr, false, ◌||◌, List, [], ◌∷◌,
  map, arith,
}
use fode_hpc_wflop.Base.Sort.{insert_sorted, stable_sort}
use fode_hpc_wflop.Base.Sort.Laws.{insert_sorted-All}
use fode_hpc_wflop.Farm.Evaluate.{has_adjacent}
use fode_hpc_wflop.Fode.Grid.{IsCase, grid_dimension}
use fode_hpc_wflop.Double.{Double}
use fode_hpc_wflop.Loader.{CaseFields, off_grid, breaks_contract, check_case, last_of}
use fode_hpc_wflop.Case.{CaseData}

-- No item is below one that stands before it.
abbrev Rises : List ℤ → Type 0
Rises [] = Unit
Rises (x ∷ xs) = All (λ y. ltb_ℤ y x ≡ false) xs × Rises xs

loosen :
    (a x : ℤ) (xs : List ℤ)
    → ltb_ℤ x a ≡ false
    → All (λ y. ltb_ℤ y x ≡ false) xs
    → All (λ y. ltb_ℤ y a ≡ false) xs
loosen a x [] h hs = tt
loosen a x (y ∷ ys) h (g, gs) = (ground arith, loosen a x ys h gs)

insert_sorted-Rises : (a : ℤ) (xs : List ℤ) → Rises xs → Rises (insert_sorted ltb_ℤ a xs)
unfolding insert_sorted
insert_sorted-Rises a [] r = (tt, tt)
insert_sorted-Rises a (x ∷ xs) (h, r) = elim (Bool-cases (ltb_ℤ x a)) [
  | inl below ↦ rw below (
    insert_sorted-All ltb_ℤ (λ y. ltb_ℤ y x ≡ false) a xs (ground arith) h,
    insert_sorted-Rises a xs r,
  )
  | inr above ↦ rw above ((above, loosen a x xs above h), (h, r))
]

stable_sort-Rises : (xs : List ℤ) → Rises (stable_sort ltb_ℤ xs)
unfolding stable_sort
stable_sort-Rises [] = tt
stable_sort-Rises (x ∷ xs) = insert_sorted-Rises x (stable_sort ltb_ℤ xs) (stable_sort-Rises xs)

abbrev IsCell : ℕ → ℕ → Type 0
IsCell grid cell = (1 ≤ cell) × (cell ≤ grid)

below_cell :
    (grid : ℕ) (x y : ℤ)
    → ltb_ℤ y x ≡ false
    → ltb_ℤ x (pos 1) ≡ false
    → pos_part y ≤ grid
    → IsCell grid (pos_part x)
below_cell grid (pos n) (pos m) g l h = (ground arith, ground arith)
below_cell grid (pos n) (negsuc m) g l h = ground arith
below_cell grid (negsuc n) y g l h = ground arith

-- Rising cells lie between the first and the last.
rising_cells :
    (grid : ℕ) (x : ℤ) (xs : List ℤ)
    → Rises (x ∷ xs)
    → ltb_ℤ x (pos 1) ≡ false
    → ltb_ℤ (pos grid) (last_of x xs) ≡ false
    → All (IsCell grid) (map pos_part (x ∷ xs))
rising_cells grid (pos n) [] r l h = ((ground arith, ground arith), tt)
rising_cells grid (negsuc n) [] r l h = ground arith
rising_cells grid x (y ∷ ys) ((g, gs), r) l h =
    let rest = rising_cells grid y ys r (ground arith) h in (below_cell grid x y g l rest.0.1, rest)

cells_on_grid :
    (grid : ℕ) (cells : List ℤ)
    → Rises cells
    → off_grid grid cells ≡ false
    → All (IsCell grid) (map pos_part cells)
cells_on_grid grid [] r h = tt
cells_on_grid grid (x ∷ xs) r h = rising_cells grid x xs r (ground arith) (ground arith)

room_left :
    (grid size : ℕ) (count : ℤ)
    → ltb_ℤ (pos grid -ℤ pos size) count ≡ false
    → ltb_ℤ count (pos 1) ≡ false
    → (0 < pos_part count) × (pos_part count + size ≤ grid)
room_left grid size (pos n) h l = (ground arith, ground arith)
room_left grid size (negsuc n) h l = ground arith

module _ {W : Type 0} ⦃D : Double W⦄ where
  has_turbines :
      (c : CaseFields W) → breaks_contract c ≡ false → ltb_ℤ c.turbine_count (pos 1) ≡ false
  unfolding breaks_contract
  has_turbines c h = ground arith

  -- A case that passes the checks of `parse_case`, on a grid of fewer than 2 ^ 31 cells, is
  -- admitted: it has a turbine at least, every unavailable cell is on the grid, and the grid has
  -- room for the turbines beside the unavailable cells.
  pub check_case-IsCase :
      (fields : CaseFields W) (farm : CaseData W)
      → check_case fields ≡ ok farm
      → grid_dimension farm < 2 ^ 31
      → IsCase farm
  unfolding check_case
  check_case-IsCase fields farm h small =
      let (contract, h1) = after_check (breaks_contract fields) _ _ farm h in
      let (placed, h2) = after_check (has_adjacent cells || off_grid grid cells) _ _ farm h1 in
      let (room, h3) =
        after_check (ltb_ℤ (pos grid -ℤ pos (length cells)) fields.turbine_count) _ _ farm h2 in
      subst IsCase (ok-injective _ _ h3) (record {
        small = subst (λ c. grid_dimension c < 2 ^ 31) (sym (ok-injective _ _ h3)) small;
        turbines = (turbines contract room).0;
        cells =
            cells_on_grid grid cells (stable_sort-Rises fields.unavailable_cells_1based)
              (ground (arith, placed));
        room = omega (arith, (turbines contract room).1, length-map pos_part cells);
      })
    where
      cells : List ℤ
      cells = stable_sort ltb_ℤ fields.unavailable_cells_1based

      grid : ℕ
      grid = pos_part fields.rows * pos_part fields.cols

      turbines :
          breaks_contract fields ≡ false
          → ltb_ℤ (pos grid -ℤ pos (length cells)) fields.turbine_count ≡ false
          → (0 < pos_part fields.turbine_count)
            × (pos_part fields.turbine_count + length cells ≤ grid)
      turbines contract room =
          room_left grid (length cells) fields.turbine_count room (has_turbines fields contract)
