-- ===== src/Gga/Ranking/Between.antt =====
-- Between two fronts of the loop, and how a front leads to the next.
use fode_hpc_wflop.Base.{
  ℕ, zero, suc, ◌≤◌, ◌<◌, ◌≡◌, refl, sym, ap, ◌∙◌, pos, negsuc, Bool, true, false, List, [], ◌∷◌,
  ◌==◌, length, get_or, All, Bool-cases, inl, inr, ltb, ltb→lt, arith,
}
use fode_hpc_wflop.Base.Sort.Laws.{Distinct, All-map_of}
use fode_hpc_wflop.Fode.Grid.{contains}
use fode_hpc_wflop.Gga.Ranking.{Ranking, visit, dominates_set}
use fode_hpc_wflop.Gga.Ranking.Levels.{rank_of, Gone, Level}
use fode_hpc_wflop.Gga.Ranking.Fronts.{Ready, Visited, visit-Visited}

pub get_or-beyond {ℓ} :
    {A : Type ℓ} (xs : List A) (i : ℕ) (d : A) → length xs ≤ i → get_or xs i d ≡ d
get_or-beyond [] i d h = refl
get_or-beyond (x ∷ xs) zero d h = absurd (omega arith)
get_or-beyond (x ∷ xs) (suc i) d h = get_or-beyond xs i d (omega arith)

module _ (e : ℕ → ℕ → Bool) (n : ℕ) where
  -- Between two fronts: what has a lower rank has released all, and the members have the rank.
  pub record Between (front : ℕ) (gone : Gone) (members : List ℕ) (s : Ranking) : Type 0 where
    pub level : Level e n front gone s
    pub empty : s.next ≡ []
    pub fulls :
        (x m y : ℕ) → rank_of s x ≡ pos m → m < front → y < n → e x y ≡ true → gone x y ≡ true
    pub covered : (x : ℕ) → rank_of s x ≡ pos front → contains x members ≡ true
    pub ready : All (Ready e n front gone s) members
    pub different : Distinct members

  pub inside :
      (front : ℕ) (gone : Gone) (s : Ranking) (x m : ℕ)
      → Level e n front gone s
      → rank_of s x ≡ pos m
      → x < n
  inside front gone s x m v r = elim (Bool-cases (ltb x n)) [
    | inl low ↦ ltb→lt x n low
    | inr high ↦ absurd (cc (get_or-beyond s.rank x (negsuc 0) (ground (arith, v.ranks_long)), r))
  ]

  pub rank_low :
      (front : ℕ) (gone : Gone) (s : Ranking) (x m : ℕ)
      → Level e n front gone s
      → rank_of s x ≡ pos m
      → m ≤ suc front
  rank_low front gone s x m v r = elim (v.status x (inside front gone s x m v r)) [
    | inl (_, (k, q, low)) ↦ ground (arith, r ∙ refl, sym r ∙ q)
    | inr (_, q) ↦ absurd (cc (r, q))
  ]

  module _ (front : ℕ) (gone : Gone) (members : List ℕ) (s : Ranking)
      (b : Between front gone members s) where
    abbrev t : Ranking
    t = visit front (dominates_set e n) members s

    abbrev pub visited : Visited e n front gone members s t
    visited = visit-Visited e n front members gone s b.level b.ready b.different

    -- Behind the front, all of a rank up to its own have released all.
    pub released_low :
        (x m y : ℕ)
        → rank_of t x ≡ pos m
        → m ≤ front
        → y < n
        → e x y ≡ true
        → visited.left x y ≡ true
    released_low x m y r low h edge =
        let old = visited.grows.no_older x m low r in
        elim (Bool-cases (m == front)) [
          | inl now ↦
              let p : m ≡ front = ground arith in
              visited.full x y (b.covered x (old ∙ ap pos p)) h edge
          | inr before ↦ visited.keeps x y (b.fulls x m y old (ground arith) h edge)
        ]

    next_Level : Level e n (suc front) visited.left (record t { next = [] })
    next_Level = record {
      counts_long = visited.level.counts_long;
      ranks_long = visited.level.ranks_long;
      counted = visited.level.counted;
      status = λ j h. elim (visited.level.status j h) [
        | inl (z, (m, r, low)) ↦ inl (z, (m, r, omega arith))
        | inr u ↦ inr u
      ];
      gone_rank = λ x j g. let (m, r, low) = visited.level.gone_rank x j g in (m, r, omega arith);
      settled = λ j m h r.
          let w = visited.level.settled j m h r in record { above = w.above; touched = w.touched };
      in_next = λ x r. absurd (omega (arith, rank_low front visited.left t x _ visited.level r));
      next_ranks = tt;
      next_differ = tt;
    }

    pub next_Between : Between (suc front) visited.left t.next (record t { next = [] })
    next_Between = record {
      level = next_Level;
      empty = refl;
      fulls = λ x m y r low h edge. released_low x m y r (omega arith) h edge;
      covered = λ x r. visited.level.in_next x r;
      ready =
          All-map_of (λ x. (x < n) × (rank_of t x ≡ pos (suc front)))
            (Ready e n (suc front) visited.left (record t { next = [] }))
            (λ x h. (h.0, h.1, fresh x h.1)) t.next visited.level.next_ranks;
      different = visited.level.next_differ;
    }
      where
        fresh : (x : ℕ) → rank_of t x ≡ pos (suc front) → (j : ℕ) → visited.left x j ≡ false
        fresh x r j = elim (Bool-cases (visited.left x j)) [
          | inr no_pair ↦ no_pair
          | inl pair ↦
              let (m, q, low) = visited.level.gone_rank x j pair in
              absurd (ground (arith, sym q ∙ r))
        ]
