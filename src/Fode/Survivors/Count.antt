-- ===== src/Fode/Survivors/Count.antt =====
-- `survivor_rows` keeps as many rows as it is asked for, and `retain_rows` those rows of a matrix.
use fode_hpc_wflop.Base.{
  ◌==◌, length, get_or, set, take, replicate, All, keep_if, range_from, range, length-set,
  length-replicate, length-take, length-map, get_or-set_ne, length-range_from, Result, ok, ℕ, zero,
  suc, ◌+◌, ◌≤◌, ◌<◌, ◌≡◌, refl, sym, ◌∙◌, ◌≢◌, ◌⊎◌, inl, inr, Bool, true, false, List, [], ◌∷◌,
  map, arith,
}
use fode_hpc_wflop.Base.Sort.{length-stable_sort}
use fode_hpc_wflop.Base.Sort.Laws.{
  Distinct, Distinct-take, All-take, stable_sort-All, stable_sort-DistinctBy, All-map_of,
}
use fode_hpc_wflop.Double.{Double}
use fode_hpc_wflop.Fode.Grid.{Matrix}
use fode_hpc_wflop.Fode.Grid.Unavailable.{count_marks-replicate}
use fode_hpc_wflop.Fode.Grid.Masks.{count_marks, count_marks-set}
use fode_hpc_wflop.Fode.Survivors.{mark_rows, retain_rows, ranking, survivor_rows}

range_from-above : (i j n : ℕ) → i ≤ j → All (λ x. i ≤ x) (range_from j n)
range_from-above i j zero h = tt
range_from-above i j (suc n) h = (h, range_from-above i (suc j) n (omega arith))

pub range_from-below : (i n m : ℕ) → i + n ≤ m → All (λ x. x < m) (range_from i n)
range_from-below i zero m h = tt
range_from-below i (suc n) m h = (omega arith, range_from-below (suc i) n m (omega arith))

pub range_from-Distinct : (i n : ℕ) → Distinct (range_from i n)
range_from-Distinct i zero = tt
range_from-Distinct i (suc n) = (
  All-map_of (λ x. suc i ≤ x) (λ x. x ≢ i) (λ x h. omega arith) _
      (range_from-above (suc i) (suc i) n (omega arith)),
  range_from-Distinct (suc i) n,
)

abbrev IsClear : List Bool → ℕ → Type 0
IsClear mask row = get_or mask row false ≡ false

both {ℓ} :
    {A : Type ℓ} (P Q : A → Type 0) (xs : List A) → All P xs → All Q xs → All (λ x. P x × Q x) xs
both P Q [] h k = tt
both P Q (x ∷ xs) (h, hs) (k, ks) = ((h, k), both P Q xs hs ks)

still-IsClear :
    (mask : List Bool) (row : ℕ) (rows : List ℕ)
    → All (λ y. y ≢ row) rows
    → All (IsClear mask) rows
    → All (IsClear (set mask row true)) rows
still-IsClear mask row rows f g =
    All-map_of (λ r. (r ≢ row) × IsClear mask r) (IsClear (set mask row true))
      (λ r h. get_or-set_ne mask row r true false (λ e. h.0 (sym e)) ∙ h.1) rows (both _ _ rows f g)

-- Different rows that are not marked yet add as many marks.
count_marks-mark_rows :
    (rows : List ℕ) (mask : List Bool)
    → Distinct rows
    → All (λ row. row < length mask) rows
    → All (IsClear mask) rows
    → count_marks (mark_rows rows mask) ≡ count_marks mask + length rows
unfolding mark_rows
count_marks-mark_rows [] mask d b c = omega arith
count_marks-mark_rows (row ∷ rows) mask (e, d) (p, b) (q, c) = omega (
  arith,
  count_marks-mark_rows rows (set mask row true) d
      (All-map_of (λ r. r < length mask) (λ r. r < length (set mask row true))
        (λ r h. omega (arith, length-set mask row true)) rows b)
      (still-IsClear mask row rows e c),
  count_marks-set mask row p q,
)

length-keep_if :
    (mask : List Bool) (i : ℕ) (all : List Bool)
    → ((j : ℕ) → get_or all (i + j) false ≡ get_or mask j false)
    → length (keep_if (λ row. get_or all row false) (range_from i (length mask))) ≡ count_marks mask
length-keep_if [] i all h = refl
length-keep_if (b ∷ mask) i all h = ground (arith, here, length-keep_if mask (suc i) all later)
  where
    here : get_or all i false ≡ b
    here = let e : i + 0 ≡ i = omega arith in rw e at (h 0)

    later : (j : ℕ) → get_or all (suc i + j) false ≡ get_or mask j false
    later j = let e : suc i + j ≡ i + suc j = omega arith in rw e (h (suc j))

length-keep_marked :
    (mask : List Bool) (n : ℕ)
    → n ≡ length mask
    → length (keep_if (λ row. get_or mask row false) (range n)) ≡ count_marks mask
length-keep_marked mask n e =
    rw e (length-keep_if mask 0 mask (λ j. let z : 0 + j ≡ j = omega arith in rw z))

length-mark_rows : (rows : List ℕ) (mask : List Bool) → length (mark_rows rows mask) ≡ length mask
unfolding mark_rows
length-mark_rows [] mask = refl
length-mark_rows (row ∷ rows) mask =
    length-mark_rows rows (set mask row true) ∙ length-set mask row true

clear_everywhere : (n row : ℕ) → get_or (replicate n false) row false ≡ false
clear_everywhere zero row = refl
clear_everywhere (suc n) zero = refl
clear_everywhere (suc n) (suc row) = clear_everywhere n row

module _ {W : Type 0} ⦃D : Double W⦄ (fitness : List W) where
  pub length-ranking : length (ranking fitness) ≡ length fitness
  unfolding ranking
  length-ranking =
      length-stable_sort _ (range (length fitness)) ∙ length-range_from 0 (length fitness)

  ranking-All :
      (target : ℕ)
      → All (λ row. row < length (replicate (length fitness) false)) (take target (ranking fitness))
  unfolding ranking
  ranking-All target = All-take _ target _ (
      stable_sort-All _ _ (range (length fitness)) (
        range_from-below 0 (length fitness) _
          (omega (arith, length-replicate (length fitness) false))))

  ranking-Distinct : (target : ℕ) → Distinct (take target (ranking fitness))
  unfolding ranking
  ranking-Distinct target = Distinct-take target _ (
      stable_sort-DistinctBy _ (λ n. n) (range (length fitness))
        (range_from-Distinct 0 (length fitness)))

-- `survivor_rows` keeps exactly as many rows as its target, when there are that many fitness
-- values, ties and NaNs included.
pub length-survivor_rows :
    {W : Type 0} ⦃D : Double W⦄ (fitness : List W) (target : ℕ)
    → target ≤ length fitness
    → length (survivor_rows fitness target) ≡ target
unfolding survivor_rows
length-survivor_rows {W} ⦃D⦄ fitness target h =
    length-keep_marked retain (length fitness) kept_range ∙ marks
  where
    clear : List Bool
    clear = replicate (length fitness) false

    chosen : List ℕ
    chosen = take target (ranking fitness)

    retain : List Bool
    retain = mark_rows chosen clear

    kept_range : length fitness ≡ length retain
    kept_range = sym (length-mark_rows chosen clear ∙ length-replicate (length fitness) false)

    inside : All (λ row. row < length clear) chosen
    inside = ranking-All fitness target

    marks : count_marks retain ≡ target
    marks = omega (
      arith,
      count_marks-mark_rows chosen clear (ranking-Distinct fitness target) inside (
          All-map_of (λ row. row < length clear) (IsClear clear)
            (λ r _. clear_everywhere (length fitness) r) chosen inside),
      count_marks-replicate (length fitness),
      length-take target (ranking fitness),
      length-ranking fitness,
    )

-- A row-aligned matrix keeps one row for each survivor, and an empty one stays empty.
pub record IsAligned {W : Type 0} (size : ℕ) (matrix : Matrix W) : Type 0 where
  pub aligned : (matrix ≡ []) ⊎ (length matrix ≡ size)

pub record Retains {W : Type 0} (size : ℕ) (r : Result (Matrix W)) : Type 0 where
  pub matrix : Matrix W
  pub returned : r ≡ ok matrix
  pub rows : IsAligned size matrix

-- On a matrix that is empty or has a row for each of the old rows, `retain_rows` does not throw: an
-- empty matrix stays empty, another one gets a row for each row to keep.
pub retain_rows-Retains :
    {W : Type 0} (matrix : Matrix W) (keep : List ℕ) (old_rows : ℕ)
    → IsAligned old_rows matrix
    → Retains (length keep) (retain_rows matrix keep old_rows)
unfolding retain_rows
retain_rows-Retains [] keep old_rows a = record {
  matrix = [];
  returned = refl;
  rows = record { aligned = inl refl };
}
retain_rows-Retains (row ∷ rows) keep old_rows a =
    let same : (length (row ∷ rows) == old_rows) ≡ true = ground (arith, a.aligned) in
    record {
      matrix = map (λ r. get_or (row ∷ rows) r []) keep;
      returned = rw same;
      rows = record { aligned = inr (length-map _ keep) };
    }
