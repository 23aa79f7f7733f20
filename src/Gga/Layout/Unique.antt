-- ===== src/Gga/Layout/Unique.antt =====
-- What `repair` begins with: `std::unique` on sorted ints leaves different sites, and marks them.
use fode_hpc_wflop.Base.{
  ℕ, ◌+◌, ◌<◌, ◌≡◌, ◌≢◌, refl, ◌∙◌, ℤ, pos, negsuc, pos_part, ltb_ℤ, eqb_ℤ, Bool, true, false, List,
  [], ◌∷◌, map, length, set, get_or, get_or-set_self, length-set, All, Bool-cases, inl, inr,
  keep_if, arith,
}
use fode_hpc_wflop.Base.Sort.{insert_sorted, stable_sort}
use fode_hpc_wflop.Base.Sort.Laws.{Distinct, insert_sorted-All, All-map_of}
use fode_hpc_wflop.Fode.Grid.Masks.{count_marks, count_marks-set}
use fode_hpc_wflop.Wflop.Population.Filled.{set_stays}
use fode_hpc_wflop.Gga.Layout.{in_range, unique, unique_after, mark_members}
use fode_hpc_wflop.Gga.Layout.Draws.{All-set_clear}
use fode_hpc_wflop.Gga.Layout.Ordered.{in_range→lt}

-- Ints in order, and in strict order, pairwise.
abbrev pub Ordered : List ℤ → Type 0
Ordered [] = Unit
Ordered (x ∷ xs) = All (λ y. ltb_ℤ y x ≡ false) xs × Ordered xs

abbrev pub Rises : List ℤ → Type 0
Rises [] = Unit
Rises (x ∷ xs) = All (λ y. ltb_ℤ x y ≡ true) xs × Rises xs

insert_sorted-Ordered : (a : ℤ) (xs : List ℤ) → Ordered xs → Ordered (insert_sorted ltb_ℤ a xs)
unfolding insert_sorted
insert_sorted-Ordered a [] h = (tt, tt)
insert_sorted-Ordered a (x ∷ xs) (h, hs) = elim (Bool-cases (ltb_ℤ x a)) [
  | inl below ↦ rw below (
    insert_sorted-All ltb_ℤ (λ y. ltb_ℤ y x ≡ false) a xs (ground arith) h,
    insert_sorted-Ordered a xs hs,
  )
  | inr above ↦ rw above (
    (
      above,
      All-map_of (λ y. ltb_ℤ y x ≡ false) (λ y. ltb_ℤ y a ≡ false) (λ y e. ground arith) xs h,
    ),
    (h, hs),
  )
]

pub stable_sort-Ordered : (xs : List ℤ) → Ordered (stable_sort ltb_ℤ xs)
unfolding stable_sort
stable_sort-Ordered [] = tt
stable_sort-Ordered (x ∷ xs) = insert_sorted-Ordered x _ (stable_sort-Ordered xs)

unique_after-Rises :
    (x : ℤ) (xs : List ℤ)
    → All (λ y. ltb_ℤ y x ≡ false) xs
    → Ordered xs
    → Rises (x ∷ unique_after x xs)
unfolding unique_after
unique_after-Rises x [] h o = (tt, tt)
unique_after-Rises x (y ∷ xs) (h, hs) (k, o) = elim (Bool-cases (eqb_ℤ x y)) [
  | inl same ↦ rw same (unique_after-Rises x xs hs o)
  | inr new ↦
      let rest = unique_after-Rises y xs k o in
      let below : ltb_ℤ x y ≡ true = ground arith in
      rw new (
        (
          below,
          All-map_of (λ z. ltb_ℤ y z ≡ true) (λ z. ltb_ℤ x z ≡ true) (λ z e. ground arith) _ rest.0,
        ),
        rest,
      )
]

pub unique-Rises : (xs : List ℤ) → Ordered xs → Rises (unique xs)
unfolding unique
unique-Rises [] o = tt
unique-Rises (x ∷ xs) (h, o) = unique_after-Rises x xs h o

module _ (candidates : ℕ) where
  abbrev pub valid_of : List ℤ → List ℕ
  valid_of xs = map pos_part (keep_if (in_range candidates) xs)

  pub valid_of-sites : (xs : List ℤ) → All (λ v. v < candidates) (valid_of xs)
  valid_of-sites [] = tt
  valid_of-sites (x ∷ xs) = elim (Bool-cases (in_range candidates x)) [
    | inl inside ↦ rw inside (in_range→lt candidates x inside, valid_of-sites xs)
    | inr outside ↦ rw outside (valid_of-sites xs)
  ]

  parts_differ :
      (x y : ℤ)
      → in_range candidates x ≡ true
      → in_range candidates y ≡ true
      → ltb_ℤ x y ≡ true
      → pos_part y ≢ pos_part x
  unfolding in_range
  parts_differ (pos a) (pos b) h k e = ground arith
  parts_differ (pos a) (negsuc b) h k e = ground arith
  parts_differ (negsuc a) y h k e = ground arith

  valid_of-unequal :
      (x : ℤ) (xs : List ℤ)
      → in_range candidates x ≡ true
      → All (λ y. ltb_ℤ x y ≡ true) xs
      → All (λ v. v ≢ pos_part x) (valid_of xs)
  valid_of-unequal x [] h k = tt
  valid_of-unequal x (y ∷ xs) h (k, ks) = elim (Bool-cases (in_range candidates y)) [
    | inl inside ↦ rw inside (parts_differ x y h inside k, valid_of-unequal x xs h ks)
    | inr outside ↦ rw outside (valid_of-unequal x xs h ks)
  ]

  pub valid_of-Distinct : (xs : List ℤ) → Rises xs → Distinct (valid_of xs)
  valid_of-Distinct [] r = tt
  valid_of-Distinct (x ∷ xs) (h, r) = elim (Bool-cases (in_range candidates x)) [
    | inl inside ↦ rw inside (valid_of-unequal x xs inside h, valid_of-Distinct xs r)
    | inr outside ↦ rw outside (valid_of-Distinct xs r)
  ]

-- Marking.
pub length-mark_members :
    (layout : List ℕ) (used : List Bool) → length (mark_members layout used) ≡ length used
unfolding mark_members
length-mark_members [] used = refl
length-mark_members (v ∷ layout) used =
    length-mark_members layout (set used v true) ∙ length-set used v true

mark_members_stays :
    (layout : List ℕ) (used : List Bool) (j : ℕ)
    → get_or used j false ≡ true
    → get_or (mark_members layout used) j false ≡ true
unfolding mark_members
mark_members_stays [] used j e = e
mark_members_stays (v ∷ layout) used j e =
    mark_members_stays layout (set used v true) j (set_stays used v j e)

pub mark_members-IsMarked :
    (layout : List ℕ) (used : List Bool)
    → All (λ v. v < length used) layout
    → All (λ v. get_or (mark_members layout used) v false ≡ true) layout
unfolding mark_members
mark_members-IsMarked [] used h = tt
mark_members-IsMarked (v ∷ layout) used (h, hs) = (
  mark_members_stays layout (set used v true) v (get_or-set_self used v true false h),
  mark_members-IsMarked layout (set used v true) (
      All-map_of (λ w. w < length used) _ (λ w k. omega (arith, length-set used v true)) layout hs),
)

pub count_marks-mark_members :
    (layout : List ℕ) (used : List Bool)
    → All (λ v. v < length used) layout
    → All (λ v. get_or used v false ≡ false) layout
    → Distinct layout
    → count_marks (mark_members layout used) ≡ count_marks used + length layout
unfolding mark_members
count_marks-mark_members [] used h e d = omega arith
count_marks-mark_members (v ∷ layout) used (h, hs) (e, es) (n, d) = omega (
  arith,
  count_marks-set used v h e,
  count_marks-mark_members layout (set used v true)
      (All-map_of (λ w. w < length used) _ (λ w k. omega (arith, length-set used v true)) layout hs)
      (All-set_clear used v layout n es) d,
)
