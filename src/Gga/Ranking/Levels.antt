-- ===== src/Gga/Ranking/Levels.antt =====
-- What holds while the members of a front release those that they dominate. `e` is the relation that
-- the sets and the counts are made from; `gone x j` says that `x` has released `j`.
use fode_hpc_wflop.Base.{
  ℕ, suc, ◌≤◌, ◌<◌, ◌≡◌, ℤ, pos, negsuc, Bool, true, not, ◌&&◌, ◌||◌, ◌⊎◌, List, [], ◌∷◌, ◌++◌,
  ◌==◌, length, get_or, range, count_if, All, inl, inr, arith,
}
use fode_hpc_wflop.Base.Sort.Laws.{Distinct}
use fode_hpc_wflop.Fode.Grid.{contains}
use fode_hpc_wflop.Gga.Ranking.{Ranking}

abbrev pub rank_of : Ranking → ℕ → ℤ
rank_of s x = get_or s.rank x (negsuc 0)

abbrev pub Gone : Type 0
Gone = ℕ → ℕ → Bool

-- `i` releases `j`.
abbrev pub with_pair : Gone → ℕ → ℕ → Gone
with_pair gone i j = λ x y. gone x y || (x == i && y == j)

pub contains-append :
    (x y : ℕ) (xs : List ℕ) → contains x xs ≡ true → contains x (xs ++ y ∷ []) ≡ true
unfolding contains
contains-append x y [] h = cc
contains-append x y (z ∷ xs) h = ground (arith, contains-append x y xs)

pub contains-last : (x : ℕ) (xs : List ℕ) → contains x (xs ++ x ∷ []) ≡ true
unfolding contains
contains-last x [] = ground arith
contains-last x (z ∷ xs) = ground (arith, contains-last x xs)

module _ (e : ℕ → ℕ → Bool) (n front : ℕ) where
  abbrev pub held : Gone → ℕ → ℕ
  held gone j = count_if (λ x. e x j && not (gone x j)) (range n)

  -- A number has a rank when its count is 0, and none before.
  abbrev pub Status : Ranking → ℕ → Type 0
  Status s j =
      ((get_or s.counts j 0 ≡ 0) × ((m : ℕ) × (rank_of s j ≡ pos m) × (m ≤ suc front)))
      ⊎ ((0 < get_or s.counts j 0) × (rank_of s j ≡ negsuc 0))

  -- The ranks of those that dominate a ranked number are below its own, the highest by one.
  pub record Settled (s : Ranking) (j m : ℕ) : Type 0 where
    pub above : (x : ℕ) → x < n → e x j ≡ true → (k : ℕ) × (rank_of s x ≡ pos k) × (k < m)
    pub touched :
        (m ≡ 0)
        ⊎ ((x : ℕ) × (k : ℕ) × (x < n) × (e x j ≡ true) × (rank_of s x ≡ pos k) × (m ≡ suc k))

  pub record Level (gone : Gone) (s : Ranking) : Type 0 where
    pub counts_long : length s.counts ≡ n
    pub ranks_long : length s.rank ≡ n
    pub counted : (j : ℕ) → j < n → get_or s.counts j 0 ≡ held gone j
    pub status : (j : ℕ) → j < n → Status s j
    pub gone_rank : (x j : ℕ) → gone x j ≡ true → (m : ℕ) × (rank_of s x ≡ pos m) × (m ≤ front)
    pub settled : (j m : ℕ) → j < n → rank_of s j ≡ pos m → Settled s j m
    pub in_next : (x : ℕ) → rank_of s x ≡ pos (suc front) → contains x s.next ≡ true
    pub next_ranks : All (λ x. (x < n) × (rank_of s x ≡ pos (suc front))) s.next
    pub next_differ : Distinct s.next

  -- A step keeps the ranks that there are, and gives no rank of the front.
  pub record Grows (s t : Ranking) : Type 0 where
    pub keeps : (x m : ℕ) → rank_of s x ≡ pos m → rank_of t x ≡ pos m
    pub no_older : (x m : ℕ) → m ≤ front → rank_of t x ≡ pos m → rank_of s x ≡ pos m

  pub Settled-Grows : (s t : Ranking) (j m : ℕ) → Grows s t → Settled s j m → Settled t j m
  Settled-Grows s t j m g w = record {
    above = λ x h k. let (l, r, less) = w.above x h k in (l, g.keeps x l r, less);
    touched = elim w.touched [
      | inl first ↦ inl first
      | inr (x, k, h, l, r, next) ↦ inr (x, k, h, l, g.keeps x k r, next)
    ];
  }
