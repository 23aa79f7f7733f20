-- ===== src/Farm/Staged/Positions.antt =====
-- Positions of lists: the lemmas on lists and quotients that the stages of the staged schedule of
-- hpc/fode_cpp/src/evaluator.cpp need.
use fode_hpc_wflop.Base.{
  ℕ, zero, suc, ◌+◌, ◌*◌, ◌/◌, ◌%◌, ◌≤◌, ◌<◌, ◌≡◌, ◌≢◌, ◌⊎◌, inl, inr, refl, ◌==◌, ==_iff,
  Bool-cases, ap, ◌∙◌, List, [], ◌∷◌, map, length, replicate, take, range, range_from, get_or,
  All-get_or, arith,
}
use native.Mathlib.Decide.{dec_lt}
use fode_hpc_wflop.Base.Sort.Laws.{Distinct}
use fode_hpc_wflop.Farm.Staged.{beside}

pub Distinct-get_or :
    (xs : List ℕ) (p q : ℕ) → Distinct xs → p < q → q < length xs → get_or xs q 0 ≢ get_or xs p 0
Distinct-get_or [] p q d h k = absurd (omega arith)
Distinct-get_or (x ∷ xs) p zero d h k = absurd (omega arith)
Distinct-get_or (x ∷ xs) zero (suc q) (e, d) h k = All-get_or (λ y. y ≢ x) xs q 0 e (omega arith)
Distinct-get_or (x ∷ xs) (suc p) (suc q) (e, d) h k =
    Distinct-get_or xs p q d (omega arith) (omega arith)

-- Some position from `position` on holds `k`, or none does.
pub find_position :
    (order : List ℕ) (k position count : ℕ)
    → ((q : ℕ) × (position ≤ q) × (q < position + count) × (get_or order q 0 ≡ k))
      ⊎ ((q : ℕ) → position ≤ q → q < position + count → get_or order q 0 ≢ k)
find_position order k position zero = inr (λ q l h. absurd (omega arith))
find_position order k position (suc count) = elim (Bool-cases (get_or order position 0 == k)) [
  | inl here ↦ inl (position, omega arith, omega arith, (==_iff (get_or order position 0) k).0 here)
  | inr other ↦ elim (find_position order k (position + 1) count) [
    | inl (q, l, h, e) ↦ inl (q, omega arith, omega arith, e)
    | inr none ↦ inr (λ q l h. elim (dec_lt position q) [
      | yes later ↦ none q (omega arith) (omega arith)
      | no here ↦ λ e.
          let same : position ≡ q = omega arith in
          let found = ap (λ p. get_or order p 0) same ∙ e in
          ground (arith, ==_iff (get_or order position 0) k)
    ])
  ]
]

get_or-map-range_from :
    {A : Type 0} (f : ℕ → A) (i n k : ℕ) (d : A)
    → k < n
    → get_or (map f (range_from i n)) k d ≡ f (i + k)
get_or-map-range_from f i zero k d h = absurd (omega arith)
get_or-map-range_from f i (suc n) zero d h = ap f (omega arith)
get_or-map-range_from f i (suc n) (suc k) d h =
    get_or-map-range_from f (suc i) n k d (omega arith) ∙ ap f (omega arith)

pub get_or-map-range :
    {A : Type 0} (f : ℕ → A) (n k : ℕ) (d : A) → k < n → get_or (map f (range n)) k d ≡ f k
get_or-map-range f n k d h = get_or-map-range_from f 0 n k d h ∙ ap f (omega arith)

pub take-map-range_from :
    {A : Type 0} (f : ℕ → A) (i n k : ℕ)
    → k ≤ n
    → take k (map f (range_from i n)) ≡ map f (range_from i k)
take-map-range_from f i n zero h = refl
take-map-range_from f i zero (suc k) h = absurd (omega arith)
take-map-range_from f i (suc n) (suc k) h =
    ap (λ xs. f i ∷ xs) (take-map-range_from f (suc i) n k (omega arith))

pub firsts :
    {A B : Type 0} (xs : List A) (ys : List B)
    → length ys ≡ length xs
    → map (λ p. p.0) (beside xs ys) ≡ xs
firsts [] ys h = refl
firsts (x ∷ xs) [] h = absurd (omega (arith, h))
firsts (x ∷ xs) (y ∷ ys) h = ap (λ t. x ∷ t) (firsts xs ys (omega (arith, h)))

pub seconds :
    {A B : Type 0} (xs : List A) (ys : List B)
    → length ys ≡ length xs
    → map (λ p. p.1) (beside xs ys) ≡ ys
seconds [] [] h = refl
seconds [] (y ∷ ys) h = absurd (omega (arith, h))
seconds (x ∷ xs) [] h = absurd (omega (arith, h))
seconds (x ∷ xs) (y ∷ ys) h = ap (λ t. y ∷ t) (seconds xs ys (omega (arith, h)))

pub quotient-lt : (i m n : ℕ) → i < m * n → i / n < m
quotient-lt i m n h = grind arith

pub remainder-lt : (i n : ℕ) → 0 < n → i % n < n
remainder-lt i n h = grind arith

pub positive_factor : (i m n : ℕ) → i < m * n → 0 < n
positive_factor i m zero h = grind arith
positive_factor i m (suc n) h = omega arith

pub get_or-replicate : {A : Type 0} (a : A) (n k : ℕ) → get_or (replicate n a) k a ≡ a
get_or-replicate a zero k = refl
get_or-replicate a (suc n) zero = refl
get_or-replicate a (suc n) (suc k) = get_or-replicate a n k
