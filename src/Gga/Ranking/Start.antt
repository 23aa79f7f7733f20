-- ===== src/Gga/Ranking/Start.antt =====
-- The first front, and the whole ranking of a strict order.
use fode_hpc_wflop.Base.{
  ℕ, zero, suc, ◌<◌, ◌≡◌, refl, sym, ap, ◌∙◌, ℤ, pos, negsuc, Bool, true, false, not, ◌&&◌, List,
  [], ◌∷◌, map, ltb, ltb→lt, ◌==◌, if◌then◌else◌, length, length-map, length-range_from, get_or,
  range, keep_if, count_if, Bool-cases, inl, inr, arith,
}
use fode_hpc_wflop.Base.Sort.Laws.{Climbs-Distinct, All-map_of}
use fode_hpc_wflop.Gga.Ranking.{Ranking, dominated_count, ranks_of}
use fode_hpc_wflop.Gga.Ranking.Counts.{
  count_if-cong, count_if-zero, keep_if-All, keep_if-Climbs, range-below, contains-keep_if,
  get_or-map_range,
}
use fode_hpc_wflop.Gga.Ranking.Levels.{rank_of, Level}
use fode_hpc_wflop.Gga.Ranking.Assigned.{is_unranked, count_if-le, Sorts, assign-Sorts}
use fode_hpc_wflop.Gga.Ranking.Between.{Between, get_or-beyond}

get_or-map :
    {A B : Type 0} (f : A → B) (xs : List A) (i : ℕ) (d : A) (c : B)
    → i < length xs
    → get_or (map f xs) i c ≡ f (get_or xs i d)
get_or-map f [] i d c h = absurd (omega arith)
get_or-map f (x ∷ xs) zero d c h = refl
get_or-map f (x ∷ xs) (suc i) d c h = get_or-map f xs i d c (omega arith)

module _ (e : ℕ → ℕ → Bool) (n : ℕ) (irreflexive : (x : ℕ) → e x x ≡ false)
    (transitive : (x y z : ℕ)
      → x < n
      → y < n
      → z < n
      → e x y ≡ true
      → e y z ≡ true
      → e x z ≡ true) where
  abbrev counts : List ℕ
  counts = dominated_count e n

  abbrev first_rank : ℕ → ℤ
  first_rank count = if count == 0 then pos 0 else negsuc 0

  abbrev s0 : Ranking
  s0 = record { counts = counts; rank = map first_rank counts; next = [] }

  abbrev nobody : ℕ → ℕ → Bool
  nobody x y = false

  counts_long : length counts ≡ n
  unfolding dominated_count
  counts_long = length-map _ (range n) ∙ length-range_from 0 n

  count_at : (j : ℕ) → j < n → get_or counts j 0 ≡ count_if (λ x. e x j) (range n)
  unfolding dominated_count
  count_at j h = get_or-map_range (λ j. count_if (λ x. e x j) (range n)) n j 0 h

  rank_at : (j : ℕ) → j < n → rank_of s0 j ≡ first_rank (get_or counts j 0)
  rank_at j h = get_or-map first_rank counts j 0 (negsuc 0) (omega (arith, counts_long))

  low_of_rank : (j m : ℕ) → rank_of s0 j ≡ pos m → j < n
  low_of_rank j m r = elim (Bool-cases (ltb j n)) [
    | inl low ↦ ltb→lt j n low
    | inr high ↦ absurd (
        cc (
          get_or-beyond (map first_rank counts) j (negsuc 0)
              (ground (arith, length-map first_rank counts, counts_long)),
          r,
        ))
  ]

  -- A first rank is 0, of a number that nothing dominates.
  first_rank_zero : (j m : ℕ) → rank_of s0 j ≡ pos m → (m ≡ 0) × (get_or counts j 0 ≡ 0)
  first_rank_zero j m r =
      let low = low_of_rank j m r in (ground (arith, rank_at j low), ground (arith, rank_at j low))

  first_Level : Level e n 0 nobody s0
  first_Level = record {
    counts_long = counts_long;
    ranks_long = length-map first_rank counts ∙ counts_long;
    counted = λ j h.
        count_at j h
        ∙ count_if-cong (λ x. e x j) (λ x. e x j && not (nobody x j)) (range n) (λ x. ground arith);
    status = λ j h. elim (Bool-cases (get_or counts j 0 == 0)) [
      | inl none_held ↦ inl (
        ground arith,
        (0, rank_at j h ∙ ap (λ b. if b then pos 0 else negsuc 0) none_held, omega arith),
      )
      | inr some_held ↦
          inr (ground arith, rank_at j h ∙ ap (λ b. if b then pos 0 else negsuc 0) some_held)
    ];
    gone_rank = λ x j g. cc;
    settled = λ j m h r.
        let z = first_rank_zero j m r in
        record {
          above = λ x low edge.
              absurd (cc (edge, count_if-zero (λ x. e x j) n x (sym (count_at j h) ∙ z.1) low));
          touched = inl z.0;
        };
    in_next = λ x r. absurd (omega (arith, (first_rank_zero x 1 r).0));
    next_ranks = tt;
    next_differ = tt;
  }

  abbrev first_front : List ℕ
  first_front = keep_if (λ index. get_or counts index 0 == 0) (range n)

  first_Between : Between e n 0 nobody first_front s0
  first_Between = record {
    level = first_Level;
    empty = refl;
    fulls = λ x m y r low h edge. absurd (omega arith);
    covered = λ x r.
        contains-keep_if (λ index. get_or counts index 0 == 0) n x (low_of_rank x 0 r)
          (ground (arith, (first_rank_zero x 0 r).1));
    ready =
        All-map_of (λ x. (x < n) × ((get_or counts x 0 == 0) ≡ true)) _
          (λ x h. (h.0, rank_at x h.0 ∙ ap (λ b. if b then pos 0 else negsuc 0) h.1, λ j. refl))
          first_front
          (keep_if-All (λ index. get_or counts index 0 == 0) (λ x. x < n) (range n)
            (range-below 0 n n (omega arith)));
    different =
        Climbs-Distinct 0 first_front
          (keep_if-Climbs (λ index. get_or counts index 0 == 0) 0 0 n (omega arith));
  }

  -- Where the relation is a strict order on the numbers, `ranks_of` sorts them.
  pub ranks_of-Sorts : Sorts e n (ranks_of e n)
  unfolding ranks_of
  ranks_of-Sorts =
      assign-Sorts e n irreflexive transitive (suc n) 0 nobody first_front s0 first_Between (
        omega
          (arith, count_if-le (λ x. is_unranked (rank_of s0 x)) (range n), length-range_from 0 n))
