-- ===== src/Executor/Family.antt =====
-- The threads as a function of their number: writing one, and adding up a measure of all.
use fode_hpc_wflop.Base.{
  ℕ, zero, suc, ◌+◌, ◌≤◌, ◌<◌, ◌≡◌, ◌≢◌, Bool-cases, inl, inr, refl, ap, Bool, true, false, ◌==◌,
  if◌then◌else◌, arith,
}

module _ {A : Type 0} where
  abbrev pub update : (ℕ → A) → ℕ → A → ℕ → A
  update f w a x = if x == w then a else f x

  pub total : (A → ℕ) → ℕ → (ℕ → A) → ℕ
  total f zero p = 0
  total f (suc n) p = f (p n) + total f n p

  total-above :
      (f : A → ℕ) (n : ℕ) (p : ℕ → A) (w : ℕ) (a : A)
      → n ≤ w
      → total f n (update p w a) ≡ total f n p
  unfolding total
  total-above f zero p w a h = refl
  total-above f (suc n) p w a h = ground (arith, total-above f n p w a)

  pub total-update :
      (f : A → ℕ) (n : ℕ) (p : ℕ → A) (w : ℕ) (a : A)
      → w < n
      → total f n (update p w a) + f (p w) ≡ total f n p + f a
  unfolding total
  total-update f zero p w a h = absurd (omega arith)
  total-update f (suc n) p w a h = ground (arith, total-update f n p w a, total-above f n p w a)

  pub total-zero :
      (f : A → ℕ) (n : ℕ) (p : ℕ → A) → ((w : ℕ) → w < n → f (p w) ≡ 0) → total f n p ≡ 0
  unfolding total
  total-zero f zero p h = refl
  total-zero f (suc n) p h =
      omega (arith, h n (omega arith), total-zero f n p (λ w k. h w (omega arith)))

  pub total-le : (f : A → ℕ) (n : ℕ) (p : ℕ → A) → ((a : A) → f a ≤ 1) → total f n p ≤ n
  unfolding total
  total-le f zero p h = omega arith
  total-le f (suc n) p h = omega (arith, h (p n), total-le f n p h)

  -- Where each counts at most once, a full count is a count of each.
  pub total-full :
      (f : A → ℕ) (n : ℕ) (p : ℕ → A)
      → ((a : A) → f a ≤ 1)
      → total f n p ≡ n
      → (w : ℕ) → w < n
      → f (p w) ≡ 1
  unfolding total
  total-full f zero p h e w k = absurd (omega arith)
  total-full f (suc n) p h e w k =
      let here = h (p n) in
      let low = total-le f n p h in
      let rest : total f n p ≡ n = omega arith in ground (arith, total-full f n p h rest w)

  pub total-move :
      (f : A → ℕ) (n : ℕ) (p : ℕ → A) (w : ℕ) (a : A) {b : A}
      → w < n
      → p w ≡ b
      → total f n (update p w a) + f b ≡ total f n p + f a
  total-move f n p w a k e = omega (arith, total-update f n p w a k, ap f e)

  choose : (P : A → Type 0) (b : Bool) {x y : A} → P x → P y → P (if b then x else y)
  choose P true h k = h
  choose P false h k = k

  pub update-all :
      (P : A → Type 0) (n : ℕ) (p : ℕ → A) (w : ℕ) (a : A)
      → P a
      → ((v : ℕ) → v < n → P (p v))
      → (v : ℕ) → v < n
      → P (update p w a v)
  update-all P n p w a h all v k = choose P (v == w) h (all v k)

  -- What counts the same after a change of each adds up to the same.
  pub total_same :
      (g : A → A) (f : A → ℕ)
      → ((a : A) → f (g a) ≡ f a)
      → (n : ℕ) (p : ℕ → A) → total f n (λ w. g (p w)) ≡ total f n p
  unfolding total
  total_same g f h zero p = refl
  total_same g f h (suc n) p = omega (arith, h (p n), total_same g f h n p)

  -- Each counts at most the sum of all.
  pub le-total : (f : A → ℕ) (n : ℕ) (p : ℕ → A) (w : ℕ) → w < n → f (p w) ≤ total f n p
  unfolding total
  le-total f zero p w k = absurd (omega arith)
  le-total f (suc n) p w k = ground (arith, le-total f n p w)

  -- Where some count is short, there is one that does not count.
  pub total-short :
      (f : A → ℕ) (n : ℕ) (p : ℕ → A)
      → ((a : A) → f a ≤ 1)
      → total f n p ≢ n
      → (w : ℕ) × (w < n) × (f (p w) ≡ 0)
  unfolding total
  total-short f zero p h e = absurd (e refl)
  total-short f (suc n) p h e = elim (Bool-cases (f (p n) == 0)) [
    | inl here ↦ (n, omega arith, ground arith)
    | inr there ↦
        let one = h (p n) in
        let (w, k, z) = total-short f n p h (ground arith) in (w, omega arith, z)
  ]
