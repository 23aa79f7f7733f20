-- ===== src/Fode/Grid/Unavailable.antt =====
-- `unavailable_mask` returns for every admitted case, and marks its unavailable cells exactly.
use fode_hpc_wflop.Base.{
  ℕ, zero, suc, ◌+◌, ◌-◌, ◌≤◌, ◌<◌, ◌≡◌, ◌≢◌, refl, Bool, true, false, List, [], ◌∷◌, length, set,
  get_or, replicate, arith, All, ok, length-set, length-replicate, ◌∙◌,
}
use fode_hpc_wflop.Case.{CaseData}
use fode_hpc_wflop.Fode.Grid.{
  grid_dimension, mark_cells, unavailable_mask, contains, IsFree, IsCase,
}
use fode_hpc_wflop.Fode.Grid.Masks.{count_marks, IsUnmarked}

-- The result of the loop on cells that are on the grid.
marked : List ℕ → List Bool → List Bool
marked [] mask = mask
marked (cell ∷ cells) mask = marked cells (set mask (cell - 1) true)

mark_cells_lem :
    (grid : ℕ) (cells : List ℕ) (mask : List Bool)
    → All (λ cell. (1 ≤ cell) × (cell ≤ grid)) cells
    → mark_cells grid cells mask ≡ ok (marked cells mask)
unfolding mark_cells marked
mark_cells_lem grid [] mask h = refl
mark_cells_lem grid (cell ∷ cells) mask (h, hs) =
    ground (arith, mark_cells_lem grid cells (set mask (cell - 1) true) hs)

length-marked : (cells : List ℕ) (mask : List Bool) → length (marked cells mask) ≡ length mask
unfolding marked
length-marked [] mask = refl
length-marked (cell ∷ cells) mask =
    length-marked cells (set mask (cell - 1) true) ∙ length-set mask (cell - 1) true

count_marks-set-le :
    (mask : List Bool) (i : ℕ) → count_marks (set mask i true) ≤ count_marks mask + 1
count_marks-set-le [] i = omega arith
count_marks-set-le (b ∷ mask) zero = ground arith
count_marks-set-le (b ∷ mask) (suc i) = omega (arith, count_marks-set-le mask i)

count_marks-marked :
    (cells : List ℕ) (mask : List Bool)
    → count_marks (marked cells mask) ≤ count_marks mask + length cells
unfolding marked
count_marks-marked [] mask = omega arith
count_marks-marked (cell ∷ cells) mask =
    omega (
      arith,
      count_marks-marked cells (set mask (cell - 1) true),
      count_marks-set-le mask (cell - 1),
    )

-- A mark that is set stays set.
set_keeps :
    (mask : List Bool) (i j : ℕ)
    → get_or (set mask i true) j false ≡ false
    → get_or mask j false ≡ false
set_keeps [] i j e = refl
set_keeps (b ∷ mask) zero zero e = cc
set_keeps (b ∷ mask) zero (suc j) e = e
set_keeps (b ∷ mask) (suc i) zero e = e
set_keeps (b ∷ mask) (suc i) (suc j) e = set_keeps mask i j e

marked_keeps :
    (cells : List ℕ) (mask : List Bool) (j : ℕ)
    → get_or (marked cells mask) j false ≡ false
    → get_or mask j false ≡ false
unfolding marked
marked_keeps [] mask j e = e
marked_keeps (cell ∷ cells) mask j e =
    set_keeps mask (cell - 1) j (marked_keeps cells (set mask (cell - 1) true) j e)

set_marks :
    (mask : List Bool) (i j : ℕ)
    → j < length mask
    → get_or (set mask i true) j false ≡ false
    → i ≢ j
set_marks [] i j h e p = absurd (omega arith)
set_marks (b ∷ mask) zero zero h e p = cc
set_marks (b ∷ mask) zero (suc j) h e p = omega arith
set_marks (b ∷ mask) (suc i) zero h e p = omega arith
set_marks (b ∷ mask) (suc i) (suc j) h e p = set_marks mask i j (omega arith) e (omega arith)

-- A cell with no mark is not in the list.
marked_free :
    (grid : ℕ) (cells : List ℕ) (mask : List Bool) (cell : ℕ)
    → All (λ c. (1 ≤ c) × (c ≤ grid)) cells
    → 1 ≤ cell
    → cell ≤ length mask
    → get_or (marked cells mask) (cell - 1) false ≡ false
    → contains cell cells ≡ false
unfolding marked contains
marked_free grid [] mask cell h low high e = refl
marked_free grid (c ∷ cells) mask cell (h, hs) low high e = ground (
  arith,
  marked_free grid cells (set mask (c - 1) true) cell hs low
      (omega (arith, length-set mask (c - 1) true)) e,
  set_marks mask (c - 1) (cell - 1) (omega arith)
      (marked_keeps cells (set mask (c - 1) true) (cell - 1) e),
)

pub count_marks-replicate : (n : ℕ) → count_marks (replicate n false) ≡ 0
count_marks-replicate zero = refl
count_marks-replicate (suc n) = omega (arith, count_marks-replicate n)

-- The mask of a case: as long as the grid, with room for the turbines, and clear on free cells only.
pub record HasMask {W : Type 0} (farm : CaseData W) : Type 0 where
  pub mask : List Bool
  pub returned : unavailable_mask farm ≡ ok mask
  pub long : length mask ≡ grid_dimension farm
  pub room : farm.turbine_count + count_marks mask ≤ length mask
  pub sound : (cell : ℕ) → IsUnmarked 1 mask cell → IsFree farm cell

-- For every admitted case `unavailable_mask` returns a mask with one mark for each cell of the
-- grid. It leaves at least as many cells free as there are turbines, and every cell that it leaves
-- free is on the grid and not listed as unavailable.
pub unavailable_mask-HasMask : {W : Type 0} (farm : CaseData W) → IsCase farm → HasMask farm
unfolding unavailable_mask
unavailable_mask-HasMask farm valid = record {
  mask = mask;
  returned = mark_cells_lem grid cells clear valid.cells;
  long = long;
  room =
      omega (arith, long, count_marks-marked cells clear, count_marks-replicate grid, valid.room);
  sound = λ cell u. record {
    positive = u.above;
    on_grid = omega (arith, u.inside, long);
    available =
        marked_free grid cells clear cell valid.cells u.above
          (omega (arith, u.inside, long, length-replicate grid false)) u.clear;
  };
}
  where
    grid : ℕ
    grid = grid_dimension farm

    cells : List ℕ
    cells = farm.unavailable_cells_1based

    clear : List Bool
    clear = replicate grid false

    mask : List Bool
    mask = marked cells clear

    long : length mask ≡ grid
    long = length-marked cells clear ∙ length-replicate grid false
