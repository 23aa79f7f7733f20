-- ===== src/Gga/Ranking/Fronts.antt =====
-- A front releases all that its members dominate, and the next front takes over.
use fode_hpc_wflop.Base.{
  ℕ, ◌<◌, ◌≡◌, ◌≢◌, subst, pos, Bool, true, false, ◌⊎◌, List, [], ◌∷◌, ◌==◌, get_or, range, keep_if,
  All, Bool-cases, inl, inr, arith,
}
use fode_hpc_wflop.Base.Sort.Laws.{Distinct, Climbs-Distinct, All-map_of}
use fode_hpc_wflop.Fode.Grid.{contains}
use fode_hpc_wflop.Gga.Ranking.{Ranking, release, release_all, visit, dominates_set}
use fode_hpc_wflop.Gga.Ranking.Counts.{
  keep_if-All, keep_if-Climbs, range-below, contains-keep_if, get_or-map_range,
}
use fode_hpc_wflop.Gga.Ranking.Levels.{rank_of, Gone, with_pair, Level, Grows}
use fode_hpc_wflop.Gga.Ranking.Release.{release-Level, release-Grows}

-- `i` releases each of the list.
pub with_all : Gone → ℕ → List ℕ → Gone
with_all gone i [] = gone
with_all gone i (j ∷ js) = with_all (with_pair gone i j) i js

with_all-keeps :
    (gone : Gone) (i : ℕ) (js : List ℕ) (x y : ℕ) → gone x y ≡ true → with_all gone i js x y ≡ true
unfolding with_all
with_all-keeps gone i [] x y h = h
with_all-keeps gone i (j ∷ js) x y h = with_all-keeps (with_pair gone i j) i js x y (ground arith)

with_all-in :
    (gone : Gone) (i : ℕ) (js : List ℕ) (y : ℕ)
    → contains y js ≡ true
    → with_all gone i js i y ≡ true
unfolding with_all contains
with_all-in gone i [] y h = cc
with_all-in gone i (j ∷ js) y h = elim (Bool-cases (j == y)) [
  | inl now ↦ with_all-keeps (with_pair gone i j) i js i y (ground arith)
  | inr later ↦ with_all-in (with_pair gone i j) i js y (ground arith)
]

with_all-other :
    (gone : Gone) (i : ℕ) (js : List ℕ) (x y : ℕ)
    → x ≢ i
    → gone x y ≡ false
    → with_all gone i js x y ≡ false
unfolding with_all
with_all-other gone i [] x y h f = f
with_all-other gone i (j ∷ js) x y h f =
    with_all-other (with_pair gone i j) i js x y h (ground arith)

contains-of_All :
    (x i : ℕ) (members : List ℕ)
    → contains x (i ∷ members) ≡ true
    → (x ≡ i) ⊎ (contains x members ≡ true)
unfolding contains
contains-of_All x i members h = elim (Bool-cases (i == x)) [
  | inl now ↦ inl (ground arith)
  | inr later ↦ inr (ground arith)
]

module _ (e : ℕ → ℕ → Bool) (n front : ℕ) where
  Grows-refl : (s : Ranking) → Grows e n front s s
  Grows-refl s = record { keeps = λ x m r. r; no_older = λ x m low r. r }

  Grows-trans : (s t u : Ranking) → Grows e n front s t → Grows e n front t u → Grows e n front s u
  Grows-trans s t u g h = record {
    keeps = λ x m r. h.keeps x m (g.keeps x m r);
    no_older = λ x m low r. g.no_older x m low (h.no_older x m low r);
  }

  record Released (gone : Gone) (s t : Ranking) : Type 0 where
    level : Level e n front gone t
    grows : Grows e n front s t

  -- What `i` may release.
  abbrev Releases : Gone → ℕ → ℕ → Type 0
  Releases gone i j = (j < n) × (e i j ≡ true) × (gone i j ≡ false)

  still_fresh :
      (gone : Gone) (i j : ℕ) (js : List ℕ)
      → All (λ y. y ≢ j) js
      → All (Releases gone i) js
      → All (Releases (with_pair gone i j) i) js
  still_fresh gone i j [] h r = tt
  still_fresh gone i j (y ∷ js) (h, hs) (r, rs) =
      ((r.0, r.1, ground (arith, r.2)), still_fresh gone i j js hs rs)

  release_all-Released :
      (i : ℕ) (js : List ℕ) (gone : Gone) (s : Ranking)
      → i < n
      → rank_of s i ≡ pos front
      → All (Releases gone i) js
      → Distinct js
      → Level e n front gone s
      → Released (with_all gone i js) s (release_all front js s)
  unfolding release_all with_all
  release_all-Released i [] gone s low r h d v = record { level = v; grows = Grows-refl s }
  release_all-Released i (j ∷ js) gone s low r (h, hs) (k, d) v =
      let g = release-Grows e n front gone s v i j low h.0 h.1 h.2 r in
      let rest =
        release_all-Released i js (with_pair gone i j) (release front j s) low (g.keeps i front r)
          (still_fresh gone i j js k hs) d
          (release-Level e n front gone s v i j low h.0 h.1 h.2 r) in
      record { level = rest.level; grows = Grows-trans s (release front j s) _ g rest.grows }

  abbrev set_of : ℕ → List ℕ
  set_of i = keep_if (e i) (range n)

  set_of-Releases :
      (gone : Gone) (i : ℕ) → ((j : ℕ) → gone i j ≡ false) → All (Releases gone i) (set_of i)
  set_of-Releases gone i fresh =
      All-map_of (λ j. (j < n) × (e i j ≡ true)) (Releases gone i) (λ j h. (h.0, h.1, fresh j))
        (set_of i) (keep_if-All (e i) (λ j. j < n) (range n) (range-below 0 n n (omega arith)))

  -- A member of the front that has released nothing yet.
  abbrev pub Ready : Gone → Ranking → ℕ → Type 0
  Ready gone s i = (i < n) × (rank_of s i ≡ pos front) × ((j : ℕ) → gone i j ≡ false)

  pub record Visited (gone : Gone) (members : List ℕ) (s t : Ranking) : Type 0 where
    pub left : Gone
    pub level : Level e n front left t
    pub grows : Grows e n front s t
    pub keeps : (x y : ℕ) → gone x y ≡ true → left x y ≡ true
    pub full : (x y : ℕ) → contains x members ≡ true → y < n → e x y ≡ true → left x y ≡ true

  still_ready :
      (gone : Gone) (s t : Ranking) (i : ℕ) (members : List ℕ)
      → Grows e n front s t
      → All (λ x. x ≢ i) members
      → All (Ready gone s) members
      → All (Ready (with_all gone i (set_of i)) t) members
  still_ready gone s t i [] g h r = tt
  still_ready gone s t i (x ∷ members) g (h, hs) (r, rs) = (
    (r.0, g.keeps x front r.1, λ j. with_all-other gone i (set_of i) x j h (r.2 j)),
    still_ready gone s t i members g hs rs,
  )

  first_release :
      (i : ℕ) (gone : Gone) (s : Ranking)
      → Level e n front gone s
      → Ready gone s i
      → Released (with_all gone i (set_of i)) s (release_all front (set_of i) s)
  first_release i gone s v h =
      release_all-Released i (set_of i) gone s h.0 h.1 (set_of-Releases gone i h.2)
        (Climbs-Distinct 0 (set_of i) (keep_if-Climbs (e i) 0 0 n (omega arith))) v

  own_set : (i : ℕ) → i < n → get_or (dominates_set e n) i [] ≡ set_of i
  unfolding dominates_set
  own_set i h = get_or-map_range (λ x. keep_if (e x) (range n)) n i [] h

  pub visit-Visited :
      (members : List ℕ) (gone : Gone) (s : Ranking)
      → Level e n front gone s
      → All (Ready gone s) members
      → Distinct members
      → Visited gone members s (visit front (dominates_set e n) members s)
  unfolding visit contains
  visit-Visited [] gone s v h d = record {
    left = gone;
    level = v;
    grows = Grows-refl s;
    keeps = λ x y k. k;
    full = λ x y k. cc;
  }
  visit-Visited (i ∷ members) gone s v (h, hs) (k, d) =
      let first = first_release i gone s v h in
      let rest =
        visit-Visited members (with_all gone i (set_of i)) (release_all front (set_of i) s)
          first.level
          (still_ready gone s (release_all front (set_of i) s) i members first.grows k hs) d in
      rw (own_set i h.0) (record {
        left = rest.left;
        level = rest.level;
        grows = Grows-trans s (release_all front (set_of i) s) _ first.grows rest.grows;
        keeps = λ x y g. rest.keeps x y (with_all-keeps gone i (set_of i) x y g);
        full = λ x y c low edge. elim (contains-of_All x i members c) [
          | inl p ↦
              let edge_i : e i y ≡ true = subst (λ z. e z y ≡ true) p edge in
              rw p (
                rest.keeps i y
                  (with_all-in gone i (set_of i) y (contains-keep_if (e i) n y low edge_i)))
          | inr later ↦ rest.full x y later low edge
        ];
      })
