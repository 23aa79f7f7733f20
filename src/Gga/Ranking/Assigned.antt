-- ===== src/Gga/Ranking/Assigned.antt =====
-- The loop over the fronts ends, and every number has its rank.
use fode_hpc_wflop.Base.{
  ℕ, zero, suc, ◌≤◌, ◌<◌, ◌≡◌, ◌≢◌, refl, sym, ap, subst, ◌∙◌, ℤ, pos, negsuc, Bool, true, false,
  not, ◌&&◌, ◌⊎◌, List, [], ◌∷◌, length, get_or, range, count_if, is_empty, All, Bool-cases, inl,
  inr, Result, ok, ltb, ltb→lt, arith,
}
use fode_hpc_wflop.Fode.Grid.{contains}
use fode_hpc_wflop.Gga.Ranking.{Ranking, visit, assign, dominates_set}
use fode_hpc_wflop.Gga.Ranking.Counts.{count_if-some, count_if-grows}
use fode_hpc_wflop.Gga.Ranking.Levels.{rank_of, Gone}
use fode_hpc_wflop.Gga.Ranking.Fronts.{Visited}
use fode_hpc_wflop.Gga.Ranking.Between.{Between, rank_low, released_low, next_Between, visited}

unfoldable pub is_unranked : ℤ → Bool
is_unranked (pos m) = false
is_unranked (negsuc m) = true

nothing_in : (x : ℕ) → contains x [] ≢ true
unfolding contains
nothing_in x h = cc h

pub count_if-le : (p : ℕ → Bool) (xs : List ℕ) → count_if p xs ≤ length xs
count_if-le p [] = omega arith
count_if-le p (x ∷ xs) = ground (arith, count_if-le p xs)

-- The ranks are those of the sort: a number stands above all that dominate it, and right above one
-- of them unless it is on the first front.
pub record IsRanked (e : ℕ → ℕ → Bool) (n : ℕ) (rank : List ℤ) (j : ℕ) : Type 0 where
  pub level : ℕ
  pub own : get_or rank j (negsuc 0) ≡ pos level
  pub above :
      (x : ℕ) → x < n → e x j ≡ true → (k : ℕ) × (get_or rank x (negsuc 0) ≡ pos k) × (k < level)
  pub touched :
      (level ≡ 0)
      ⊎ ((x : ℕ) × (k : ℕ) × (x < n)
          × (e x j ≡ true)
          × (get_or rank x (negsuc 0) ≡ pos k)
          × (level ≡ suc k))

pub record Sorts (e : ℕ → ℕ → Bool) (n : ℕ) (r : Result (List (List ℕ) × List ℤ)) : Type 0 where
  pub fronts : List (List ℕ)
  pub rank : List ℤ
  pub returned : r ≡ ok (fronts, rank)
  pub long : length rank ≡ n
  pub ranked : (j : ℕ) → j < n → IsRanked e n rank j

module _ (e : ℕ → ℕ → Bool) (n : ℕ) (irreflexive : (x : ℕ) → e x x ≡ false)
    (transitive : (x y z : ℕ)
      → x < n
      → y < n
      → z < n
      → e x y ≡ true
      → e y z ≡ true
      → e x z ≡ true) where
  module _ (front : ℕ) (gone : Gone) (members : List ℕ) (s : Ranking)
      (b : Between e n front gone members s) where
    abbrev t : Ranking
    t = visit front (dominates_set e n) members s

    abbrev seen : Visited e n front gone members s t
    seen = visited e n front gone members s b

    -- When nothing is next, every number has a rank: one without would have a dominator without.
    module _ (finished : t.next ≡ []) where
      ranked_released :
          (x m y : ℕ) → rank_of t x ≡ pos m → y < n → e x y ≡ true → seen.left x y ≡ true
      ranked_released x m y r h edge = elim (Bool-cases (ltb front m)) [
        | inl over ↦
            let low = rank_low e n front seen.left t x m seen.level r in
            let last : m ≡ suc front = ground arith in
            let found = seen.level.in_next x (r ∙ ap pos last) in
            absurd (nothing_in x (subst (λ xs. contains x xs ≡ true) finished found))
        | inr within ↦ released_low e n front gone members s b x m y r (ground arith) h edge
      ]

      abbrev dominators : ℕ → ℕ
      dominators j = count_if (λ x. ltb x n && e x j) (range n)

      all_ranked : (bound j : ℕ) → dominators j < bound → j < n → (m : ℕ) × (rank_of t j ≡ pos m)
      all_ranked zero j few h = absurd (omega arith)
      all_ranked (suc bound) j few h = elim (seen.level.status j h) [
        | inl (_, (m, r, _)) ↦ (m, r)
        | inr (some_held, _) ↦
            let (x, low, f) =
              count_if-some (λ x. e x j && not (seen.left x j)) n
                (omega (arith, seen.level.counted j h)) in
            let edge : e x j ≡ true = ground arith in
            let fewer : dominators x < dominators j =
              count_if-grows (λ y. ltb y n && e y x) (λ y. ltb y n && e y j) n x
                (λ y k.
                  let y_low = ltb→lt y n (ground arith) in
                  let step = transitive y x j y_low low h (ground arith) edge in ground arith)
                low (ground (arith, irreflexive x)) (ground arith) in
            let (m, r) = all_ranked bound x (omega arith) low in
            absurd (ground (arith, ranked_released x m j r h edge))
      ]

      all_IsRanked : (j : ℕ) → j < n → IsRanked e n t.rank j
      all_IsRanked j h =
          let (m, r) = all_ranked (suc (dominators j)) j (omega arith) h in
          let w = seen.level.settled j m h r in
          record { level = m; own = r; above = w.above; touched = w.touched }

    -- A front with something next has ranked a number.
    abbrev unranked_at : Ranking → ℕ → Bool
    unranked_at u x = is_unranked (rank_of u x)

    keeps_ranked : (x : ℕ) → unranked_at t x ≡ true → unranked_at s x ≡ true
    unfolding is_unranked
    keeps_ranked x = keep (rank_of s x) refl
      where
        keep :
            (r : ℤ)
            → rank_of s x ≡ r
            → is_unranked (rank_of t x) ≡ true
            → is_unranked (rank_of s x) ≡ true
        keep (pos m) p h = absurd (cc (ap is_unranked (seen.grows.keeps x m p), h))
        keep (negsuc m) p h = rw p refl

    newly_ranked : (x : ℕ) → x < n → rank_of t x ≡ pos (suc front) → unranked_at s x ≡ true
    unfolding is_unranked
    newly_ranked x low r = elim (b.level.status x low) [
      | inr (_, q) ↦ rw q refl
      | inl (_, (m, q, _)) ↦
          let same : pos m ≡ pos (suc front) = sym (seen.grows.keeps x m q) ∙ r in
          absurd (
            nothing_in x
              (subst (λ xs. contains x xs ≡ true) b.empty (b.level.in_next x (q ∙ same))))
    ]

    fewer_unranked :
        (x : ℕ)
        → x < n
        → rank_of t x ≡ pos (suc front)
        → count_if (unranked_at t) (range n) < count_if (unranked_at s) (range n)
    unfolding is_unranked
    fewer_unranked x low r =
        count_if-grows (unranked_at t) (unranked_at s) n x keeps_ranked low (ap is_unranked r)
          (newly_ranked x low r)

  pub assign-Sorts :
      (fuel front : ℕ) (gone : Gone) (members : List ℕ) (s : Ranking)
      → Between e n front gone members (record s { next = [] })
      → count_if (λ x. is_unranked (rank_of s x)) (range n) < fuel
      → Sorts e n (assign fuel front (dominates_set e n) members s)
  unfolding assign
  assign-Sorts zero front gone members s b h = absurd (omega arith)
  assign-Sorts (suc fuel) front gone members s b h = elim (Bool-cases (is_empty u.next)) [
    | inl done ↦ rw done (record {
      fronts = members ∷ [];
      rank = u.rank;
      returned = refl;
      long = w.level.ranks_long;
      ranked = all_IsRanked front gone members s0 b (empty-of u.next done);
    })
    | inr more ↦
        let (x, low, r) = some_next u.next more w.level.next_ranks in
        let rest =
          assign-Sorts fuel (suc front) w.left u.next u (next_Between e n front gone members s0 b)
            (omega (arith, fewer_unranked front gone members s0 b x low r)) in
        rw (more, rest.returned)
          (record {
            fronts = members ∷ rest.fronts;
            rank = rest.rank;
            returned = refl;
            long = rest.long;
            ranked = rest.ranked;
          })
  ]
    where
      s0 : Ranking
      s0 = record s { next = [] }

      u : Ranking
      u = visit front (dominates_set e n) members s0

      w : Visited e n front gone members s0 u
      w = visited e n front gone members s0 b

      empty-of : (xs : List ℕ) → is_empty xs ≡ true → xs ≡ []
      empty-of [] h = refl
      empty-of (x ∷ xs) h = cc

      some_next :
          (xs : List ℕ)
          → is_empty xs ≡ false
          → All (λ x. (x < n) × (rank_of u x ≡ pos (suc front))) xs
          → (x : ℕ) × (x < n) × (rank_of u x ≡ pos (suc front))
      some_next [] h k = cc
      some_next (x ∷ xs) h (k, ks) = (x, k.0, k.1)
