-- ===== src/Farm/Evaluate/Feasible.antt =====
-- The evaluator's checks pass for feasible layouts.
use fode_hpc_wflop.Base.{
  ltb, ◌==◌, length, All, all_of, length-map, pos, ltb_ℤ, ok, ℕ, ◌≤◌, ◌<◌, ◌≡◌, refl, ap, ap₂, ◌∙◌,
  true, false, ◌&&◌, List, [], ◌∷◌, map, arith,
}
use fode_hpc_wflop.Base.Sort.{insert_sorted, stable_sort}
use fode_hpc_wflop.Base.Sort.Laws.{Ascends, All-map_of}
use fode_hpc_wflop.Case.{CaseData}
use fode_hpc_wflop.Double.{Double}
use fode_hpc_wflop.Double.Laws.{IsExact}
use fode_hpc_wflop.Farm.Fused.{layout_fitness}
use fode_hpc_wflop.Farm.Evaluate.{
  cells_on_grid, has_adjacent, check_layout, check_layouts, evaluate_population_hpc,
}
use fode_hpc_wflop.Fode.Grid.{Matrix, IsFree, IsCase, IsLayoutRow, IsPopulation, grid_dimension}

cells_on_grid_free :
    (grid : ℕ) (cells : List ℕ)
    → All (λ c. (1 ≤ c) × (c ≤ grid)) cells
    → cells_on_grid grid (map pos cells) ≡ ok tt
unfolding cells_on_grid
cells_on_grid_free grid [] h = refl
cells_on_grid_free grid (c ∷ cells) (h, hs) = ground (arith, cells_on_grid_free grid cells hs)

-- Ascending cells are in order already.
insert_sorted_first :
    (previous : ℕ) (cells : List ℕ)
    → Ascends previous cells
    → insert_sorted ltb_ℤ (pos previous) (map pos cells) ≡ pos previous ∷ map pos cells
unfolding insert_sorted
insert_sorted_first previous [] a = refl
insert_sorted_first previous (c ∷ cells) a = ground arith

stable_sort_ascending :
    (previous : ℕ) (cells : List ℕ)
    → Ascends previous cells
    → stable_sort ltb_ℤ (map pos cells) ≡ map pos cells
unfolding stable_sort
stable_sort_ascending previous [] a = refl
stable_sort_ascending previous (c ∷ cells) (p, a) =
    rw (stable_sort_ascending c cells a) (insert_sorted_first c cells a)

has_adjacent_ascending :
    (previous : ℕ) (cells : List ℕ) → Ascends previous cells → has_adjacent (map pos cells) ≡ false
unfolding has_adjacent
has_adjacent_ascending previous [] a = refl
has_adjacent_ascending previous (c ∷ []) a = refl
has_adjacent_ascending previous (c ∷ e ∷ cells) (p, (q, a)) =
    ground (arith, has_adjacent_ascending c (e ∷ cells) (q, a))

module _ {W : Type 0} ⦃D : Double W⦄ (exact : IsExact D) (farm : CaseData W)
    (valid : IsCase farm) where
  round_cells :
      (cells : List ℕ)
      → All (IsFree farm) cells
      → map D.round_int (map (λ c. D.of_int (pos c)) cells) ≡ map pos cells
  round_cells [] h = refl
  round_cells (c ∷ cells) (h, hs) =
      ap₂ ◌∷◌ (exact.round_int-of_int c (omega (arith, h.on_grid, valid.small)))
        (round_cells cells hs)

  -- A layout row reads back as its cells.
  pub round_layout :
      (row : List W) (l : IsLayoutRow farm row) → map D.round_int row ≡ map pos l.cells
  round_layout row l = rw l.spelled (round_cells l.cells l.feasible.free)

  check_layout_ok : (row : List W) → IsLayoutRow farm row → check_layout farm row ≡ ok tt
  unfolding check_layout
  check_layout_ok row l =
      let on_grid =
        cells_on_grid_free (grid_dimension farm) l.cells
          (All-map_of (IsFree farm) _ (λ c f. (f.positive, f.on_grid)) l.cells l.feasible.free) in
      rw (round_layout row l) (
        rw (on_grid, stable_sort_ascending 0 l.cells l.feasible.ascends)
          (rw (has_adjacent_ascending 0 l.cells l.feasible.ascends)))

  check_layouts_ok :
      (rows : Matrix W) → All (IsLayoutRow farm) rows → check_layouts farm rows ≡ ok tt
  unfolding check_layouts
  check_layouts_ok [] h = refl
  check_layouts_ok (row ∷ rows) (h, hs) = rw (check_layout_ok row h) (check_layouts_ok rows hs)

  pub length-layout : (row : List W) → IsLayoutRow farm row → length row ≡ farm.turbine_count
  length-layout row l =
      ap length l.spelled ∙ length-map (λ c. D.of_int (pos c)) l.cells ∙ l.feasible.complete

  shapes :
      (rows : Matrix W)
      → All (IsLayoutRow farm) rows
      → all_of (λ row. length row == farm.turbine_count) rows ≡ true
  shapes [] h = refl
  shapes (row ∷ rows) (h, hs) = ground (arith, length-layout row h, shapes rows hs)

  -- On a batch of one or more feasible layouts of an admitted case, with doubles that hold every
  -- int exactly, `evaluate_population_hpc` never throws: it returns the fitness of each layout, in
  -- order.
  pub evaluate_population_hpc_ok :
      (rows : Matrix W) (size : ℕ)
      → IsPopulation farm size rows
      → 0 < size
      → evaluate_population_hpc farm rows size ≡ ok (map (layout_fitness farm) rows)
  unfolding evaluate_population_hpc
  evaluate_population_hpc_ok rows size p h =
      let some_rows : ltb size 1 ≡ false = ground arith in
      let shaped : (length rows == size && all_of (λ row. length row == farm.turbine_count) rows)
          ≡ true =
        ground (arith, p.count, shapes rows p.layouts) in
      rw some_rows (rw shaped (rw (check_layouts_ok rows p.layouts)))
