-- ===== src/Farm/Staged/Order.antt =====
-- A stage of tasks of hpc/fode_cpp/src/evaluator.cpp leaves the same arrays in any order.
use fode_hpc_wflop.Base.{
  ℕ, zero, suc, ◌+◌, ◌*◌, ◌/◌, ◌%◌, ◌<◌, ◌≡◌, ◌⊎◌, inl, inr, refl, ap, ap₂, sym, subst, ◌∙◌, ◌==◌,
  ==_iff, Bool-cases, if◌then◌else◌, List, [], ◌∷◌, map, length, get_or, range, range_from, All,
  arith,
}
use fode_hpc_wflop.Farm.Detail.Sums.{get_or-range}
use fode_hpc_wflop.Farm.Staged.{Writes, write_all, execute_stage, slice, written_at}

abbrev pub Member : ℕ → List ℕ → Type 0
Member i [] = ⊥
Member i (x ∷ xs) = (x ≡ i) ⊎ Member i xs

-- An order of the tasks from 0 up to `end`, as `parallel_for` promises one.
pub record Covers (end : ℕ) (order : List ℕ) : Type 0 where
  pub inside : All (λ i. i < end) order
  pub complete : (i : ℕ) → i < end → Member i order

pub quotient : (i n k : ℕ) → k < n → (i * n + k) / n ≡ i
quotient i n k h = grind arith

pub remainder : (i n k : ℕ) → k < n → (i * n + k) % n ≡ k
remainder i n k h = grind arith

module _ {A : Type 0} (spec : ℕ → A) where
  -- Each write agrees with `spec`.
  abbrev pub Agrees : Writes A → Type 0
  Agrees = All (λ w. w.1 ≡ spec w.0)

  abbrev pub Hits : ℕ → Writes A → Type 0
  Hits t [] = ⊥
  Hits t ((place, value) ∷ more) = (place ≡ t) ⊎ Hits t more

  at_place :
      (place t : ℕ) (value : A) (a : ℕ → A)
      → value ≡ spec place
      → (place ≡ t) ⊎ (a t ≡ spec t)
      → (if t == place then value else a t) ≡ spec t
  at_place place t value a h e = elim (Bool-cases (t == place)) [
    | inl same ↦ rw same (h ∙ ap spec (sym ((==_iff t place).0 same)))
    | inr other ↦
        rw other (elim e [ inl same ↦ absurd (ground (arith, ==_iff t place)) | inr kept ↦ kept ])
  ]

  keep_write :
      (ws : Writes A) (a : ℕ → A) (t : ℕ) → Agrees ws → a t ≡ spec t → write_all ws a t ≡ spec t
  keep_write [] a t h e = e
  keep_write ((place, value) ∷ more) a t (h, hs) e =
      keep_write more (λ i. if i == place then value else a i) t hs
        (at_place place t value a h (inr e))

  hit_write :
      (ws : Writes A) (a : ℕ → A) (t : ℕ) → Agrees ws → Hits t ws → write_all ws a t ≡ spec t
  hit_write [] a t h e = absurd e
  hit_write ((place, value) ∷ more) a t (h, hs) (inl here) =
      keep_write more (λ i. if i == place then value else a i) t hs
        (at_place place t value a h (inl here))
  hit_write ((place, value) ∷ more) a t (h, hs) (inr there) =
      hit_write more (λ i. if i == place then value else a i) t hs there

  module _ (task : ℕ → Writes A) (t : ℕ) where
    keep_stage :
        (order : List ℕ) (a : ℕ → A)
        → All (λ i. Agrees (task i)) order
        → a t ≡ spec t
        → execute_stage task order a t ≡ spec t
    unfolding execute_stage
    keep_stage [] a h e = e
    keep_stage (index ∷ order) a (h, hs) e =
        keep_stage order (write_all (task index) a) hs (keep_write (task index) a t h e)

    hit_stage :
        (order : List ℕ) (a : ℕ → A) (i : ℕ)
        → All (λ i. Agrees (task i)) order
        → Member i order
        → Hits t (task i)
        → execute_stage task order a t ≡ spec t
    unfolding execute_stage
    hit_stage [] a i h k e = absurd k
    hit_stage (index ∷ order) a i (h, hs) (inl here) e =
        keep_stage order (write_all (task index) a) hs
          (hit_write (task index) a t h (subst (λ j. Hits t (task j)) (sym here) e))
    hit_stage (index ∷ order) a i (h, hs) (inr there) e =
        hit_stage order (write_all (task index) a) i hs there e

    Agrees-on :
        (end : ℕ) (order : List ℕ)
        → ((i : ℕ) → i < end → Agrees (task i))
        → All (λ i. i < end) order
        → All (λ i. Agrees (task i)) order
    Agrees-on end [] h k = tt
    Agrees-on end (index ∷ order) h (k, ks) = (h index k, Agrees-on end order h ks)

    -- What a task writes is there behind the stage,
    pub execute_stage-hit :
        (end : ℕ) (order : List ℕ) (a : ℕ → A) (i : ℕ)
        → Covers end order
        → ((i : ℕ) → i < end → Agrees (task i))
        → i < end
        → Hits t (task i)
        → execute_stage task order a t ≡ spec t
    execute_stage-hit end order a i c h k e =
        hit_stage order a i (Agrees-on end order h c.inside) (c.complete i k) e

    -- and what was right stays.
    pub execute_stage-keep :
        (end : ℕ) (order : List ℕ) (a : ℕ → A)
        → Covers end order
        → ((i : ℕ) → i < end → Agrees (task i))
        → a t ≡ spec t
        → execute_stage task order a t ≡ spec t
    execute_stage-keep end order a c h e = keep_stage order a (Agrees-on end order h c.inside) e

  Agrees-written_at :
      (place : ℕ) (xs : List A) (d : A)
      → ((k : ℕ) → k < length xs → get_or xs k d ≡ spec (place + k))
      → Agrees (written_at place xs)
  Agrees-written_at place [] d h = tt
  Agrees-written_at place (x ∷ xs) d h = (
    h 0 (omega arith) ∙ ap spec (omega arith),
    Agrees-written_at (suc place) xs d (λ k l. h (suc k) (omega arith) ∙ ap spec (omega arith)),
  )

  Hits-written_at :
      (place : ℕ) (xs : List A) (k : ℕ) → k < length xs → Hits (place + k) (written_at place xs)
  Hits-written_at place [] k h = absurd (omega arith)
  Hits-written_at place (x ∷ xs) zero h = inl (omega arith)
  Hits-written_at place (x ∷ xs) (suc k) h = inr (
      subst (λ t. Hits t (written_at (suc place) xs)) (omega arith)
        (Hits-written_at (suc place) xs k (omega arith)))

pub map-range_from :
    {A : Type 0} (f g : ℕ → A) (i n : ℕ)
    → ((k : ℕ) → k < i + n → f k ≡ g k)
    → map f (range_from i n) ≡ map g (range_from i n)
map-range_from f g i zero h = refl
map-range_from f g i (suc n) h =
    ap₂ (λ x xs. x ∷ xs) (h i (omega arith))
      (map-range_from f g (suc i) n (λ k l. h k (omega arith)))

-- A slice by its items.
pub slice-of :
    {A : Type 0} (n : ℕ) (a : ℕ → A) (offset : ℕ) (xs : List A) (d : A)
    → length xs ≡ n
    → ((k : ℕ) → k < n → a (offset + k) ≡ get_or xs k d)
    → slice n a offset ≡ xs
slice-of n a offset xs d long h =
    map-range_from (λ k. a (offset + k)) (λ k. get_or xs k d) 0 n (λ k l. h k (omega arith))
    ∙ ap (λ m. map (λ k. get_or xs k d) (range m)) (sym long)
    ∙ get_or-range xs d

-- A stage whose task `i` writes the `n` places from `i * n` on.
pub slice-execute_stage :
    {A : Type 0} (n end : ℕ) (row : ℕ → List A) (d : A) (order : List ℕ) (a : ℕ → A)
    → Covers end order
    → ((i : ℕ) → i < end → length (row i) ≡ n)
    → (i : ℕ) → i < end
    → slice n (execute_stage (λ i. written_at (i * n) (row i)) order a) (i * n) ≡ row i
slice-execute_stage n end row d order a c long i h =
    let spec = λ (t : ℕ). get_or (row (t / n)) (t % n) d in
    slice-of n (execute_stage (λ i. written_at (i * n) (row i)) order a) (i * n) (row i) d
      (long i h)
      (λ k l.
        execute_stage-hit spec (λ i. written_at (i * n) (row i)) (i * n + k) end order a i c
          (λ j m. Agrees-written_at spec (j * n) (row j) d (λ x y. sym (
            ap₂ (λ q r. get_or (row q) r d) (quotient j n x (omega (arith, long j m)))
              (remainder j n x (omega (arith, long j m))))))
          h (Hits-written_at spec (i * n) (row i) k (omega (arith, long i h)))
        ∙ ap₂ (λ q r. get_or (row q) r d) (quotient i n k l) (remainder i n k l))
