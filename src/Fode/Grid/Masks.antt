-- ===== src/Fode/Grid/Masks.antt =====
-- Marks on the grid's cells: what setting, counting and listing them does.
use fode_hpc_wflop.Base.{
  ℕ, zero, suc, ◌+◌, ◌-◌, ◌≤◌, ◌<◌, ◌≡◌, refl, Bool, true, false, List, [], ◌∷◌, length, set,
  get_or, count_if, arith, All, if◌then◌else◌,
}
use fode_hpc_wflop.Base.Sort.Laws.{Ascends}
use fode_hpc_wflop.Fode.Repair.{occupy_first, placed_cells}

abbrev pub count_marks : List Bool → ℕ
count_marks = count_if (λ b. b)

-- Every mark of the first list is a mark of the second, which is as long.
abbrev pub Covers : List Bool → List Bool → Type 0
Covers [] [] = Unit
Covers [] (o ∷ os) = ⊥
Covers (b ∷ bs) [] = ⊥
Covers (b ∷ bs) (o ∷ os) = (b ≡ true → o ≡ true) × Covers bs os

pub Covers-refl : (bs : List Bool) → Covers bs bs
Covers-refl [] = tt
Covers-refl (b ∷ bs) = (λ e. e, Covers-refl bs)

pub Covers-length : (bs os : List Bool) → Covers bs os → length bs ≡ length os
Covers-length [] [] c = refl
Covers-length [] (o ∷ os) c = absurd c
Covers-length (b ∷ bs) [] c = absurd c
Covers-length (b ∷ bs) (o ∷ os) c = omega (arith, Covers-length bs os c.1)

pub Covers-set : (bs os : List Bool) (i : ℕ) → Covers bs os → Covers bs (set os i true)
Covers-set [] [] i c = tt
Covers-set [] (o ∷ os) i c = absurd c
Covers-set (b ∷ bs) [] i c = absurd c
Covers-set (b ∷ bs) (o ∷ os) zero c = (λ _. refl, c.1)
Covers-set (b ∷ bs) (o ∷ os) (suc i) c = (c.0, Covers-set bs os i c.1)

pub count_marks-set :
    (os : List Bool) (i : ℕ)
    → i < length os
    → get_or os i false ≡ false
    → count_marks (set os i true) ≡ count_marks os + 1
count_marks-set [] i h e = absurd (omega arith)
count_marks-set (o ∷ os) zero h e = ground arith
count_marks-set (o ∷ os) (suc i) h e = omega (arith, count_marks-set os i (omega arith) e)

pub count_marks-le : (os : List Bool) → count_marks os ≤ length os
count_marks-le [] = omega arith
count_marks-le (o ∷ os) = ground (arith, count_marks-le os)

-- What the search for a free cell does: it covers the same marks, and adds one unless all are set.
pub record Occupied (bs os cells : List Bool) (found : Bool) : Type 0 where
  pub covers : Covers bs cells
  pub counted : count_marks cells ≡ count_marks os + (if found then 1 else 0)
  pub full : found ≡ false → count_marks os ≡ length os

pub occupy_first-Occupied :
    (bs os : List Bool) → Covers bs os → Occupied bs os (occupy_first os).0 (occupy_first os).1
unfolding occupy_first
occupy_first-Occupied [] [] c = record { covers = tt; counted = refl; full = λ _. refl }
occupy_first-Occupied [] (o ∷ os) c = absurd c
occupy_first-Occupied (b ∷ bs) [] c = absurd c
occupy_first-Occupied (b ∷ bs) (true ∷ os) c =
    let r = occupy_first-Occupied bs os c.1 in
    record {
      covers = (c.0, r.covers);
      counted = omega (arith, r.counted);
      full = λ e. omega (arith, r.full e);
    }
occupy_first-Occupied (b ∷ bs) (false ∷ os) c = record {
  covers = (λ _. refl, c.1);
  counted = omega arith;
  full = λ e. cc;
}

-- The listed cells are as many as the marks that the cover adds.
pub length-placed_cells :
    (cell : ℕ) (os bs : List Bool)
    → Covers bs os
    → length (placed_cells cell os bs) + count_marks bs ≡ count_marks os
unfolding placed_cells
length-placed_cells cell [] [] c = refl
length-placed_cells cell (o ∷ os) [] c = absurd c
length-placed_cells cell [] (b ∷ bs) c = absurd c
length-placed_cells cell (o ∷ os) (b ∷ bs) c =
    ground (arith, c.0, length-placed_cells (suc cell) os bs c.1)

-- They ascend.
pub placed_cells-Ascends :
    (previous cell : ℕ) (os bs : List Bool)
    → previous < cell
    → Ascends previous (placed_cells cell os bs)
unfolding placed_cells
placed_cells-Ascends previous cell [] bs h = tt
placed_cells-Ascends previous cell (o ∷ os) [] h = tt
placed_cells-Ascends previous cell (o ∷ os) (b ∷ bs) h = ground (
  arith,
  placed_cells-Ascends previous (suc cell) os bs,
  placed_cells-Ascends cell (suc cell) os bs,
)

-- A cell whose mark in the list that starts at `first` is not set.
pub record IsUnmarked (first : ℕ) (bs : List Bool) (cell : ℕ) : Type 0 where
  pub above : first ≤ cell
  pub inside : cell < first + length bs
  pub clear : get_or bs (cell - first) false ≡ false

IsUnmarked-cons :
    (first : ℕ) (b : Bool) (bs : List Bool) (cell : ℕ)
    → IsUnmarked (suc first) bs cell
    → IsUnmarked first (b ∷ bs) cell
IsUnmarked-cons first b bs cell u =
    let e : cell - first ≡ suc (cell - suc first) = omega arith in
    record { above = omega arith; inside = omega arith; clear = rw e u.clear }

pub All-IsUnmarked-cons :
    (first : ℕ) (b : Bool) (bs : List Bool) (cells : List ℕ)
    → All (IsUnmarked (suc first) bs) cells
    → All (IsUnmarked first (b ∷ bs)) cells
All-IsUnmarked-cons first b bs [] h = tt
All-IsUnmarked-cons first b bs (c ∷ cells) (h, hs) =
    (IsUnmarked-cons first b bs c h, All-IsUnmarked-cons first b bs cells hs)

pub IsUnmarked-first : (first : ℕ) (bs : List Bool) → IsUnmarked first (false ∷ bs) first
IsUnmarked-first first bs =
    let e : first - first ≡ 0 = omega arith in
    record { above = omega arith; inside = omega arith; clear = rw e refl }

-- None of them is blocked.
pub placed_cells-IsUnmarked :
    (cell : ℕ) (os bs : List Bool) → All (IsUnmarked cell bs) (placed_cells cell os bs)
unfolding placed_cells
placed_cells-IsUnmarked cell [] bs = tt
placed_cells-IsUnmarked cell (o ∷ os) [] = tt
placed_cells-IsUnmarked cell (true ∷ os) (false ∷ bs) = (
  IsUnmarked-first cell bs,
  All-IsUnmarked-cons cell false bs _ (placed_cells-IsUnmarked (suc cell) os bs),
)
placed_cells-IsUnmarked cell (true ∷ os) (true ∷ bs) =
    All-IsUnmarked-cons cell true bs _ (placed_cells-IsUnmarked (suc cell) os bs)
placed_cells-IsUnmarked cell (false ∷ os) (b ∷ bs) =
    All-IsUnmarked-cons cell b bs _ (placed_cells-IsUnmarked (suc cell) os bs)
