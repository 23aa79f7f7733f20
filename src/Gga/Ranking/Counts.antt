-- ===== src/Gga/Ranking/Counts.antt =====
-- Counting over the numbers of an interval.
use fode_hpc_wflop.Base.{
  ℕ, zero, suc, ◌+◌, ◌≤◌, ◌<◌, ◌≡◌, ◌≢◌, refl, ap, ◌∙◌, Bool, true, false, List, [], ◌∷◌, map, ◌||◌,
  ◌==◌, get_or, range, range_from, keep_if, count_if, Bool-cases, inl, inr, All, arith,
}
use mathlib.Core.Path.{fun_ext}
use fode_hpc_wflop.Base.Sort.Laws.{Climbs}
use fode_hpc_wflop.Fode.Grid.{contains}

module _ (p q : ℕ → Bool) (i : ℕ) (same : (x : ℕ) → x ≢ i → q x ≡ p x) where
  count_if-above : (a m : ℕ) → i < a → count_if q (range_from a m) ≡ count_if p (range_from a m)
  count_if-above a zero h = refl
  count_if-above a (suc m) h =
      let here : q a ≡ p a = same a (omega arith) in
      rw here (omega (arith, count_if-above (suc a) m (omega arith)))

  count_if-drop_from :
      (a m : ℕ)
      → a ≤ i
      → i < a + m
      → p i ≡ true
      → q i ≡ false
      → count_if q (range_from a m) + 1 ≡ count_if p (range_from a m)
  count_if-drop_from a zero h k t f = absurd (omega arith)
  count_if-drop_from a (suc m) h k t f = elim (Bool-cases (a == i)) [
    | inl now ↦
        let e : a ≡ i = ground arith in
        let yes_here : p a ≡ true = ap p e ∙ t in
        let no_here : q a ≡ false = ap q e ∙ f in
        rw (yes_here, no_here) (omega (arith, count_if-above (suc a) m (omega arith)))
    | inr later ↦
        let apart : a ≢ i = λ e. ground arith in
        let here : q a ≡ p a = same a apart in
        rw here (omega (arith, count_if-drop_from (suc a) m (omega arith) (omega arith) t f))
  ]

  -- One number less passes.
  pub count_if-drop :
      (n : ℕ) → i < n → p i ≡ true → q i ≡ false → count_if q (range n) + 1 ≡ count_if p (range n)
  count_if-drop n h = count_if-drop_from 0 n (omega arith) (omega arith)

pub count_if-cong :
    (p q : ℕ → Bool) (xs : List ℕ) → ((x : ℕ) → p x ≡ q x) → count_if p xs ≡ count_if q xs
count_if-cong p q xs h = ap (λ f. count_if f xs) (fun_ext h)

count_if-zero_from :
    (p : ℕ → Bool) (a m x : ℕ) → count_if p (range_from a m) ≡ 0 → a ≤ x → x < a + m → p x ≡ false
count_if-zero_from p a zero x e h k = absurd (omega arith)
count_if-zero_from p a (suc m) x e h k = elim (Bool-cases (p a)) [
  | inl some ↦ absurd (ground arith)
  | inr none ↦ elim (Bool-cases (a == x)) [
    | inl now ↦ let s : x ≡ a = ground arith in ap p s ∙ none
    | inr later ↦ count_if-zero_from p (suc a) m x (ground arith) (ground arith) (omega arith)
  ]
]

pub count_if-zero : (p : ℕ → Bool) (n x : ℕ) → count_if p (range n) ≡ 0 → x < n → p x ≡ false
count_if-zero p n x e h = count_if-zero_from p 0 n x e (omega arith) (omega arith)

count_if-some_from :
    (p : ℕ → Bool) (a m : ℕ)
    → 0 < count_if p (range_from a m)
    → (x : ℕ) × (x < a + m) × (p x ≡ true)
count_if-some_from p a zero h = absurd (omega arith)
count_if-some_from p a (suc m) h = elim (Bool-cases (p a)) [
  | inl some ↦ (a, omega arith, some)
  | inr none ↦ let (x, k, e) = count_if-some_from p (suc a) m (ground arith) in (x, omega arith, e)
]

pub count_if-some :
    (p : ℕ → Bool) (n : ℕ) → 0 < count_if p (range n) → (x : ℕ) × (x < n) × (p x ≡ true)
count_if-some p n h = let (x, k, e) = count_if-some_from p 0 n h in (x, omega arith, e)

count_if_mono :
    (p q : ℕ → Bool) (xs : List ℕ)
    → ((x : ℕ) → p x ≡ true → q x ≡ true)
    → count_if p xs ≤ count_if q xs
count_if_mono p q [] h = omega arith
count_if_mono p q (x ∷ xs) h = ground (arith, h x, count_if_mono p q xs h)

-- A larger set of numbers that has one more is counted higher.
pub count_if-grows :
    (p q : ℕ → Bool) (n i : ℕ)
    → ((x : ℕ) → p x ≡ true → q x ≡ true)
    → i < n
    → p i ≡ false
    → q i ≡ true
    → count_if p (range n) < count_if q (range n)
count_if-grows p q n i h k e f =
    let joined = λ (x : ℕ). p x || (x == i) in
    let at_i : (p i || (i == i)) ≡ true = ground arith in
    let one : count_if p (range n) + 1 ≡ count_if joined (range n) =
      count_if-drop joined p i (λ x apart. ground arith) n k at_i e in
    let into : count_if joined (range n) ≤ count_if q (range n) =
      count_if_mono joined q (range n) (λ x t. elim (Bool-cases (x == i)) [
        | inl now ↦ let s : x ≡ i = ground arith in ap q s ∙ f
        | inr other ↦ h x (ground arith)
      ]) in
    omega arith

-- What `keep_if` keeps of the numbers below n.
pub keep_if-All :
    {A : Type 0} (p : A → Bool) (P : A → Type 0) (xs : List A)
    → All P xs
    → All (λ x. P x × (p x ≡ true)) (keep_if p xs)
keep_if-All p P [] h = tt
keep_if-All p P (x ∷ xs) (h, hs) = elim (Bool-cases (p x)) [
  | inl kept ↦ rw kept ((h, kept), keep_if-All p P xs hs)
  | inr out ↦ rw out (keep_if-All p P xs hs)
]

pub range-below : (a m bound : ℕ) → a + m ≤ bound → All (λ x. x < bound) (range_from a m)
range-below a zero bound h = tt
range-below a (suc m) bound h = (omega arith, range-below (suc a) m bound (omega arith))

pub keep_if-Climbs :
    (p : ℕ → Bool) (low a m : ℕ) → low ≤ a → Climbs low (keep_if p (range_from a m))
keep_if-Climbs p low a zero h = tt
keep_if-Climbs p low a (suc m) h = elim (Bool-cases (p a)) [
  | inl kept ↦ rw kept (h, keep_if-Climbs p (suc a) (suc a) m (omega arith))
  | inr out ↦ rw out (keep_if-Climbs p low (suc a) m (omega arith))
]

contains-keep_if_from :
    (p : ℕ → Bool) (a m x : ℕ)
    → a ≤ x
    → x < a + m
    → p x ≡ true
    → contains x (keep_if p (range_from a m)) ≡ true
unfolding contains
contains-keep_if_from p a zero x h k e = absurd (omega arith)
contains-keep_if_from p a (suc m) x h k e = elim (Bool-cases (a == x)) [
  | inl now ↦
      let s : a ≡ x = ground arith in let here : p a ≡ true = ap p s ∙ e in rw here (ground arith)
  | inr later ↦
      let rest = contains-keep_if_from p (suc a) m x (ground arith) (omega arith) e in ground arith
]

pub contains-keep_if :
    (p : ℕ → Bool) (n x : ℕ) → x < n → p x ≡ true → contains x (keep_if p (range n)) ≡ true
contains-keep_if p n x h e = contains-keep_if_from p 0 n x (omega arith) (omega arith) e

get_or-map_from :
    {A : Type 0} (f : ℕ → A) (a m i : ℕ) (d : A)
    → i < m
    → get_or (map f (range_from a m)) i d ≡ f (a + i)
get_or-map_from f a zero i d h = absurd (omega arith)
get_or-map_from f a (suc m) zero d h = let e : a ≡ a + 0 = omega arith in ap f e
get_or-map_from f a (suc m) (suc i) d h =
    let e : suc a + i ≡ a + suc i = omega arith in
    get_or-map_from f (suc a) m i d (omega arith) ∙ ap f e

pub get_or-map_range :
    {A : Type 0} (f : ℕ → A) (n i : ℕ) (d : A) → i < n → get_or (map f (range n)) i d ≡ f i
get_or-map_range f n i d h = let e : 0 + i ≡ i = omega arith in get_or-map_from f 0 n i d h ∙ ap f e
