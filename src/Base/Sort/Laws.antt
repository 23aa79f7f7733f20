-- ===== src/Base/Sort/Laws.antt =====
-- What a sort keeps: the properties of the items, and their being different.
use fode_hpc_wflop.Base.{
  ℕ, zero, suc, ◌≤◌, ◌<◌, ◌≡◌, ◌≢◌, sym, Bool, false, List, [], ◌∷◌, map, All, take, arith, ltb,
  Bool-cases, inl, inr,
}
use fode_hpc_wflop.Base.Sort.{insert_sorted, stable_sort}

module _ {ℓ κ} {A : Type ℓ} (before : A → A → Bool) (P : A → Type κ) where
  pub insert_sorted-All : (a : A) (xs : List A) → P a → All P xs → All P (insert_sorted before a xs)
  unfolding insert_sorted
  insert_sorted-All a [] p h = (p, tt)
  insert_sorted-All a (x ∷ xs) p (q, h) = elim (Bool-cases (before x a)) [
    | inl e ↦ rw e (q, insert_sorted-All a xs p h)
    | inr e ↦ rw e (p, (q, h))
  ]

  pub stable_sort-All : (xs : List A) → All P xs → All P (stable_sort before xs)
  unfolding stable_sort
  stable_sort-All [] h = tt
  stable_sort-All (x ∷ xs) (p, h) = insert_sorted-All x _ p (stable_sort-All xs h)

-- No two items have one number.
abbrev pub DistinctBy {ℓ} : {A : Type ℓ} → (A → ℕ) → List A → Type 0
DistinctBy f [] = Unit
DistinctBy f (x ∷ xs) = All (λ y. f y ≢ f x) xs × DistinctBy f xs

abbrev pub Distinct : List ℕ → Type 0
Distinct = DistinctBy (λ n. n)

All-symm {ℓ} :
    {A : Type ℓ} (f : A → ℕ) (a : A) (xs : List A)
    → All (λ y. f a ≢ f y) xs
    → All (λ y. f y ≢ f a) xs
All-symm f a [] h = tt
All-symm f a (x ∷ xs) (h, hs) = (λ e. h (sym e), All-symm f a xs hs)

module _ {ℓ} {A : Type ℓ} (before : A → A → Bool) (f : A → ℕ) where
  insert_sorted-DistinctBy :
      (a : A) (xs : List A)
      → All (λ y. f y ≢ f a) xs
      → DistinctBy f xs
      → DistinctBy f (insert_sorted before a xs)
  unfolding insert_sorted
  insert_sorted-DistinctBy a [] h d = (tt, tt)
  insert_sorted-DistinctBy a (x ∷ xs) (h, hs) (e, d) = elim (Bool-cases (before x a)) [
    | inl lt ↦ rw lt (
      insert_sorted-All before (λ y. f y ≢ f x) a xs (λ q. h (sym q)) e,
      insert_sorted-DistinctBy a xs hs d,
    )
    | inr ge ↦ rw ge ((h, hs), (e, d))
  ]

  pub stable_sort-DistinctBy :
      (xs : List A) → DistinctBy f xs → DistinctBy f (stable_sort before xs)
  unfolding stable_sort
  stable_sort-DistinctBy [] d = tt
  stable_sort-DistinctBy (x ∷ xs) (h, d) =
      insert_sorted-DistinctBy x _ (stable_sort-All before (λ y. f y ≢ f x) xs h)
        (stable_sort-DistinctBy xs d)

pub All-map {ℓ κ} :
    {A : Type ℓ} {B : Type κ} (P : B → Type 0) (f : A → B) (xs : List A)
    → All (λ x. P (f x)) xs
    → All P (map f xs)
All-map P f [] h = tt
All-map P f (x ∷ xs) (h, hs) = (h, All-map P f xs hs)

pub DistinctBy-map {ℓ} :
    {A : Type ℓ} (f : A → ℕ) (xs : List A) → DistinctBy f xs → Distinct (map f xs)
DistinctBy-map f [] d = tt
DistinctBy-map f (x ∷ xs) (h, d) = (All-map (λ y. y ≢ f x) f xs h, DistinctBy-map f xs d)

pub All-take {ℓ κ} :
    {A : Type ℓ} (P : A → Type κ) (n : ℕ) (xs : List A) → All P xs → All P (take n xs)
All-take P zero xs h = tt
All-take P (suc n) [] h = tt
All-take P (suc n) (x ∷ xs) (h, hs) = (h, All-take P n xs hs)

pub All-map_of {ℓ κ μ} :
    {A : Type ℓ} (P : A → Type κ) (Q : A → Type μ) (f : (x : A) → P x → Q x) (xs : List A)
    → All P xs
    → All Q xs
All-map_of P Q f [] h = tt
All-map_of P Q f (x ∷ xs) (h, hs) = (f x h, All-map_of P Q f xs hs)

pub Distinct-take : (n : ℕ) (xs : List ℕ) → Distinct xs → Distinct (take n xs)
Distinct-take zero xs d = tt
Distinct-take (suc n) [] d = tt
Distinct-take (suc n) (x ∷ xs) (h, d) = (All-take (λ y. y ≢ x) n xs h, Distinct-take n xs d)

-- Each number is above the one before it, the first at least `low`.
abbrev pub Climbs : ℕ → List ℕ → Type 0
Climbs low [] = Unit
Climbs low (x ∷ xs) = (low ≤ x) × Climbs (suc x) xs

-- The first is above `previous`.
abbrev pub Ascends : ℕ → List ℕ → Type 0
Ascends previous = Climbs (suc previous)

insert_sorted-Climbs :
    (low a : ℕ) (xs : List ℕ)
    → low ≤ a
    → All (λ y. y ≢ a) xs
    → Climbs low xs
    → Climbs low (insert_sorted ltb a xs)
unfolding insert_sorted
insert_sorted-Climbs low a [] p h d = (p, tt)
insert_sorted-Climbs low a (x ∷ xs) p (h, hs) (q, d) = elim (Bool-cases (ltb x a)) [
  | inl lt ↦ rw lt (q, insert_sorted-Climbs (suc x) a xs (ground arith) hs d)
  | inr ge ↦ rw ge (p, (below ge, d))
]
  where
    below : ltb x a ≡ false → a < x
    below e = ground (arith, h)

-- Sorting different numbers gives them in strictly ascending order.
pub stable_sort-Climbs :
    (low : ℕ) (xs : List ℕ) → All (λ y. low ≤ y) xs → Distinct xs → Climbs low (stable_sort ltb xs)
unfolding stable_sort
stable_sort-Climbs low [] h d = tt
stable_sort-Climbs low (x ∷ xs) (h, hs) (e, d) =
    insert_sorted-Climbs low x _ h (stable_sort-All ltb (λ y. y ≢ x) xs e)
      (stable_sort-Climbs low xs hs d)

pub All-above : (previous : ℕ) (xs : List ℕ) → Ascends previous xs → All (λ y. previous < y) xs
All-above previous [] a = tt
All-above previous (x ∷ xs) (p, a) =
    (p, All-map_of (λ y. x < y) (λ y. previous < y) (λ y h. omega arith) xs (All-above x xs a))

pub Climbs-Distinct : (low : ℕ) (xs : List ℕ) → Climbs low xs → Distinct xs
Climbs-Distinct low [] a = tt
Climbs-Distinct low (x ∷ xs) (p, a) = (
  All-map_of (λ y. x < y) (λ y. y ≢ x) (λ y h. omega arith) xs (All-above x xs a),
  Climbs-Distinct (suc x) xs a,
)
