-- ===== src/Gga/Ranking/Release.antt =====
-- A step of the loop over a front: a member `i` releases `j`.
use fode_hpc_wflop.Base.{
  ℕ, suc, ◌+◌, ◌-◌, ◌≤◌, ◌<◌, ◌≡◌, ◌≢◌, refl, sym, ap, subst, ◌∙◌, pos, negsuc, Bool, true, false,
  not, ◌&&◌, ◌⊎◌, [], ◌∷◌, ◌++◌, ◌==◌, length, get_or, set, get_or-set_self, get_or-set_ne,
  length-set, range, All, All-append, Bool-cases, inl, inr, arith,
}
use fode_hpc_wflop.Base.Sort.Laws.{Distinct, All-map_of}
use fode_hpc_wflop.Fode.Grid.{contains}
use fode_hpc_wflop.Gga.Layout.Draws.{Distinct-append}
use fode_hpc_wflop.Gga.Ranking.{Ranking, release}
use fode_hpc_wflop.Gga.Ranking.Counts.{count_if-drop, count_if-cong, count_if-zero}
use fode_hpc_wflop.Gga.Ranking.Levels.{
  rank_of, Gone, with_pair, contains-append, contains-last, held, Status, Settled, Level, Grows,
  Settled-Grows,
}

module _ (e : ℕ → ℕ → Bool) (n front : ℕ) where
  module _ (gone : Gone) (s : Ranking) (v : Level e n front gone s) (i j : ℕ) (i_low : i < n)
      (j_low : j < n) (edge : e i j ≡ true) (fresh : gone i j ≡ false)
      (ranked : rank_of s i ≡ pos front) where
    abbrev t : Ranking
    t = release front j s

    abbrev after : Gone
    after = with_pair gone i j

    held-drop : held e n front after j + 1 ≡ held e n front gone j
    held-drop =
        count_if-drop (λ x. e x j && not (gone x j)) (λ x. e x j && not (after x j)) i
          (λ x apart. ground arith) n i_low (ground arith) (ground arith)

    held-same : (y : ℕ) → y ≢ j → held e n front after y ≡ held e n front gone y
    held-same y apart =
        count_if-cong (λ x. e x y && not (after x y)) (λ x. e x y && not (gone x y)) (range n)
          (λ x. ground arith)

    -- The dominated number has no rank yet.
    unranked : rank_of s j ≡ negsuc 0
    unranked = elim (v.status j j_low) [
      | inl (none_held, _) ↦ absurd (omega (arith, held-drop, v.counted j j_low))
      | inr (held_some, r) ↦ r
    ]

    counts_self : get_or (set s.counts j (get_or s.counts j 0 - 1)) j 0 ≡ get_or s.counts j 0 - 1
    counts_self =
        get_or-set_self s.counts j (get_or s.counts j 0 - 1) 0 (omega (arith, v.counts_long))

    ranks_self : get_or (set s.rank j (pos (front + 1))) j (negsuc 0) ≡ pos (front + 1)
    ranks_self = get_or-set_self s.rank j _ _ (omega (arith, v.ranks_long))

    ranks_other :
        (x : ℕ) → x ≢ j → get_or (set s.rank j (pos (front + 1))) x (negsuc 0) ≡ rank_of s x
    ranks_other x apart = get_or-set_ne s.rank j x _ _ (λ p. apart (sym p))

    counted-after : (y : ℕ) → y < n → get_or t.counts y 0 ≡ held e n front after y
    unfolding release
    counted-after y h = elim (Bool-cases (y == j)) [
      | inl now ↦
          let p : y ≡ j = ground arith in
          rw p (omega (arith, counts_self, held-drop, v.counted j j_low))
      | inr other ↦
          let apart : y ≢ j = λ p. ground arith in
          get_or-set_ne s.counts j y (get_or s.counts j 0 - 1) 0 (λ p. apart (sym p))
          ∙ v.counted y h
          ∙ sym (held-same y apart)
    ]

    pub release-Grows : Grows e n front s t
    unfolding release
    release-Grows = elim (Bool-cases (get_or s.counts j 0 == 1)) [
      | inl last ↦ rw last (record {
        keeps = λ x m r.
            let apart : x ≢ j = λ p. cc (unranked, ap (rank_of s) p) in ranks_other x apart ∙ r;
        no_older = λ x m low r. elim (Bool-cases (x == j)) [
          | inl now ↦
              let p : x ≡ j = ground arith in
              absurd (
                ground (
                  arith,
                  ranks_self,
                  ap (λ y. get_or (set s.rank j (pos (front + 1))) y (negsuc 0)) p,
                ))
          | inr other ↦ let apart : x ≢ j = λ p. ground arith in sym (ranks_other x apart) ∙ r
        ];
      })
      | inr more ↦ rw more (record { keeps = λ x m r. r; no_older = λ x m low r. r })
    ]

    next_rank : front + 1 ≡ suc front
    next_rank = omega arith

    other_counts :
        (y : ℕ)
        → y ≢ j
        → get_or (set s.counts j (get_or s.counts j 0 - 1)) y 0 ≡ get_or s.counts y 0
    other_counts y apart = get_or-set_ne s.counts j y _ 0 (λ p. apart (sym p))

    after-Status : (y : ℕ) → y < n → Status e n front t y
    unfolding release
    after-Status y h = elim (Bool-cases (get_or s.counts j 0 == 1)) [
      | inl last ↦ rw last (elim (Bool-cases (y == j)) [
        | inl now ↦
            let p : y ≡ j = ground arith in
            rw p (inl (ground (arith, counts_self), (front + 1, ranks_self, omega arith)))
        | inr other ↦
            let apart : y ≢ j = λ p. ground arith in
            rw (other_counts y apart, ranks_other y apart) (v.status y h)
      ])
      | inr more ↦ rw more (elim (Bool-cases (y == j)) [
        | inl now ↦
            let p : y ≡ j = ground arith in
            rw p (inr (ground (arith, counts_self, held-drop, v.counted j j_low), unranked))
        | inr other ↦
            let apart : y ≢ j = λ p. ground arith in rw (other_counts y apart) (v.status y h)
      ])
    ]

    gone_rank-after : (x y : ℕ) → after x y ≡ true → (m : ℕ) × (rank_of t x ≡ pos m) × (m ≤ front)
    gone_rank-after x y h = elim (Bool-cases (gone x y)) [
      | inl old ↦ let (m, r, low) = v.gone_rank x y old in (m, release-Grows.keeps x m r, low)
      | inr new ↦
          let p : x ≡ i = ground arith in
          (front, rw p (release-Grows.keeps i front ranked), omega arith)
    ]

    -- All that dominate the number have released it.
    Settled-now : get_or s.counts j 0 ≡ 1 → Settled e n front t j (suc front)
    Settled-now last = record {
      above = λ x h k.
          let z : (e x j && not (after x j)) ≡ false =
            count_if-zero (λ x. e x j && not (after x j)) n x
              (omega (arith, held-drop, v.counted j j_low)) h in
          let (m, r, low) = gone_rank-after x j (ground arith) in (m, r, omega arith);
      touched = inr (i, front, i_low, edge, release-Grows.keeps i front ranked, refl);
    }

    -- A rank after the step is an old one, or the new one of the number.
    rank_cases :
        (x m : ℕ)
        → rank_of t x ≡ pos m
        → (rank_of s x ≡ pos m)
          ⊎ ((x ≡ j) × (m ≡ suc front) × (get_or s.counts j 0 ≡ 1) × (contains j t.next ≡ true))
    unfolding release
    rank_cases x m = elim (Bool-cases (get_or s.counts j 0 == 1)) [
      | inl last ↦ rw last (λ r. elim (Bool-cases (x == j)) [
        | inl now ↦
            let p : x ≡ j = ground arith in
            let new = rw p at r in
            inr (p, ground (arith, ranks_self, new), ground arith, contains-last j s.next)
        | inr other ↦ let apart : x ≢ j = λ p. ground arith in inl (sym (ranks_other x apart) ∙ r)
      ])
      | inr more ↦ rw more (λ r. inl r)
    ]

    after-Settled : (y m : ℕ) → y < n → rank_of t y ≡ pos m → Settled e n front t y m
    after-Settled y m h r = elim (rank_cases y m r) [
      | inl old ↦ Settled-Grows e n front s t y m release-Grows (v.settled y m h old)
      | inr (p, q, last, _) ↦ rw (p, q) (Settled-now last)
    ]

    next_keeps : (x : ℕ) → contains x s.next ≡ true → contains x t.next ≡ true
    unfolding release
    next_keeps x h = elim (Bool-cases (get_or s.counts j 0 == 1)) [
      | inl last ↦ rw last (contains-append x j s.next h)
      | inr more ↦ rw more h
    ]

    in_next-after : (x : ℕ) → rank_of t x ≡ pos (suc front) → contains x t.next ≡ true
    in_next-after x r = elim (rank_cases x (suc front) r) [
      | inl old ↦ next_keeps x (v.in_next x old)
      | inr (p, q, last, found) ↦ rw p found
    ]

    old_ranks : All (λ x. (x < n) × (rank_of t x ≡ pos (suc front))) s.next
    old_ranks =
        All-map_of (λ x. (x < n) × (rank_of s x ≡ pos (suc front)))
          (λ x. (x < n) × (rank_of t x ≡ pos (suc front)))
          (λ x h. (h.0, release-Grows.keeps x (suc front) h.1)) s.next v.next_ranks

    new_differs : All (λ x. x ≢ j) s.next
    new_differs =
        All-map_of (λ x. (x < n) × (rank_of s x ≡ pos (suc front))) (λ x. x ≢ j)
          (λ x h p. cc (h.1, unranked, ap (rank_of s) p)) s.next v.next_ranks

    next_ranks-after : All (λ x. (x < n) × (rank_of t x ≡ pos (suc front))) t.next
    next_ranks-after = elim (Bool-cases (get_or s.counts j 0 == 1)) [
      | inl last ↦ subst (All (λ x. (x < n) × (rank_of t x ≡ pos (suc front)))) (next-last last) (
          All-append (λ x. (x < n) × (rank_of t x ≡ pos (suc front))) s.next (j ∷ []) old_ranks
            ((j_low, rank-last last), tt))
      | inr more ↦
          subst (All (λ x. (x < n) × (rank_of t x ≡ pos (suc front)))) (next-more more) old_ranks
    ]
      where
        next-last : (get_or s.counts j 0 == 1) ≡ true → s.next ++ j ∷ [] ≡ t.next
        next-last last = unfold release in rw last

        next-more : (get_or s.counts j 0 == 1) ≡ false → s.next ≡ t.next
        next-more more = unfold release in rw more

        rank-last : (get_or s.counts j 0 == 1) ≡ true → rank_of t j ≡ pos (suc front)
        rank-last last = unfold release in rw last (ranks_self ∙ ap pos next_rank)

    next_differ-after : Distinct t.next
    unfolding release
    next_differ-after = elim (Bool-cases (get_or s.counts j 0 == 1)) [
      | inl last ↦ rw last (Distinct-append s.next j v.next_differ new_differs)
      | inr more ↦ rw more v.next_differ
    ]

    -- The step keeps what holds on a level.
    pub release-Level : Level e n front after t
    release-Level = record {
      counts_long = counts_long-after;
      ranks_long = ranks_long-after;
      counted = counted-after;
      status = after-Status;
      gone_rank = gone_rank-after;
      settled = after-Settled;
      in_next = in_next-after;
      next_ranks = next_ranks-after;
      next_differ = next_differ-after;
    }
      where
        counts_long-after : length t.counts ≡ n
        counts_long-after = unfold release in length-set s.counts j _ ∙ v.counts_long

        ranks_long-after : length t.rank ≡ n
        ranks_long-after =
            unfold release in
            elim (Bool-cases (get_or s.counts j 0 == 1)) [
              | inl last ↦ rw last (length-set s.rank j _ ∙ v.ranks_long)
              | inr more ↦ rw more v.ranks_long
            ]
