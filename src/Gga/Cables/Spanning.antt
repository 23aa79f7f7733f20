-- ===== src/Gga/Cables/Spanning.antt =====
-- The cables of a group join each of its turbines to the substation.
use fode_hpc_wflop.Base.{
  ℕ, zero, suc, ◌+◌, ◌-◌, ◌≤◌, ◌<◌, ◌≡◌, refl, sym, ap, subst, ◌∙◌, pos, negsuc, true, false, inl,
  inr, List, [], ◌∷◌, length, get_or, range, range_from, replicate, length-replicate, length-append,
  Bool-cases, All, All-get_or, arith,
}
use fode_hpc_wflop.Double.{Double, nought}
use fode_hpc_wflop.Fode.Grid.Masks.{count_marks}
use fode_hpc_wflop.Fode.Grid.Unavailable.{count_marks-replicate}
use fode_hpc_wflop.Gga.Cables.{
  Point, Edge, Tree, pick, at_index, relax, attach, grow, seed, closest_to, group_tree, distance,
}
use fode_hpc_wflop.Gga.Cables.Linked.{Linked, Linked-more, Linked-last}
use fode_hpc_wflop.Gga.Cables.Marked.{all_marked, Relaxed, relax-Relaxed}
use fode_hpc_wflop.Gga.Cables.Growing.{node, Growing, attach-Growing}

get_or-replicate : {A : Type 0} (n i : ℕ) (a d : A) → i < n → get_or (replicate n a) i d ≡ a
get_or-replicate zero i a d h = absurd (omega arith)
get_or-replicate (suc n) zero a d h = refl
get_or-replicate (suc n) (suc i) a d h = get_or-replicate n i a d (omega arith)

-- As many cables as turbines, and they join each turbine to the substation: a spanning tree.
pub record Spans {W : Type 0} (group : List ℕ) (edges : List (Edge W)) : Type 0 where
  pub count : length edges ≡ length group
  pub joined : (i : ℕ) → i < length group → Linked edges (negsuc 0) (pos (get_or group i 0))

module _ {W : Type 0} ⦃D : Double W⦄ (some_turbine : ℕ) (others : List ℕ)
    (coordinates : List (Point W)) (positive : D.lt D.infinity nought ≡ false)
    (short : (i j : ℕ)
      → i < length (some_turbine ∷ others)
      → j < length (some_turbine ∷ others)
      → D.lt (distance (at_index coordinates i) (at_index coordinates j)) D.infinity ≡ true) where
  abbrev group : List ℕ
  group = some_turbine ∷ others

  abbrev start : Tree W
  start = seed group coordinates

  start_key : (i : ℕ) → 1 ≤ i → i < length group → get_or start.keys i nought ≡ D.infinity
  start_key zero above inside = absurd (omega arith)
  start_key (suc i) above inside =
      get_or-replicate (length others) i D.infinity nought (omega arith)

  -- The first selection is index 0, whose key alone is not infinite.
  picks_first :
      (a m : ℕ) → 1 ≤ a → a + m ≤ length group → pick start (range_from a m) (pos 0) ≡ pos 0
  unfolding pick
  picks_first a zero above room = refl
  picks_first a (suc m) above room =
      let farther : D.lt (get_or start.keys a nought) nought ≡ false =
        rw (start_key a above (omega arith)) positive in
      step a m (picks_first (suc a) m (omega arith) (omega arith)) farther
    where
      step :
          (a m : ℕ)
          → pick start (range_from (suc a) m) (pos 0) ≡ pos 0
          → D.lt (get_or start.keys a nought) nought ≡ false
          → pick start (range_from a (suc m)) (pos 0) ≡ pos 0
      step a m rest farther = elim (Bool-cases (get_or start.used a false)) [
        | inl used ↦ rw (used, pick) rest
        | inr clear ↦ rw (clear, farther, pick) rest
      ]

  abbrev first : Tree W
  first = record start { used = true ∷ replicate (length others) false }

  abbrev second : Tree W
  second = relax group coordinates 0 (range (length group)) first

  relaxed : Relaxed group coordinates 0 (length group) 0 (length group) first second
  relaxed = relax-Relaxed group coordinates 0 (length group) 0 (length group) first

  used_second : (i : ℕ) → get_or second.used i false ≡ get_or first.used i false
  used_second i = ap (λ os. get_or os i false) relaxed.used_same

  first_used : (i : ℕ) → i < length group → get_or first.used i false ≡ true → i ≡ 0
  first_used zero inside h = refl
  first_used (suc i) inside h =
      absurd (cc (h, get_or-replicate (length others) i false false (omega arith)))

  second-Growing : Growing group coordinates 1 second
  second-Growing = record {
    used_long = ap length relaxed.used_same ∙ ap suc (length-replicate (length others) false);
    parents_long = relaxed.parents_long ∙ ap suc (length-replicate (length others) (negsuc 0));
    counted =
        ap count_marks relaxed.used_same ∙ omega (arith, count_marks-replicate (length others));
    edges_long = omega (arith, ap length relaxed.edges_same);
    waiting = λ i inside h.
        let clear = sym (used_second i) ∙ h in
        (0, reached i inside clear, omega arith, used_second 0);
    linked = λ i inside h. rw (first_used i inside (sym (used_second i) ∙ h)) Linked.here;
  }
    where
      reached :
          (i : ℕ)
          → i < length group
          → get_or first.used i false ≡ false
          → get_or second.parents i (negsuc 0) ≡ pos 0
      reached zero inside clear = cc
      reached (suc i) inside clear =
          relaxed.reached (suc i) (omega arith) (omega arith)
            (omega (arith, length-replicate (length others) (negsuc 0))) clear
            (rw (start_key (suc i) (omega arith) inside) (short 0 (suc i) (omega arith) inside))

  grow-Growing :
      (iterations k : ℕ) (t : Tree W)
      → k + iterations ≡ length group
      → Growing group coordinates k t
      → Growing group coordinates (length group) (grow group coordinates iterations t)
  unfolding grow
  grow-Growing zero k t all v = subst (λ m. Growing group coordinates m t) (omega arith) v
  grow-Growing (suc iterations) k t all v =
      grow-Growing iterations (suc k) _ (omega arith)
        (attach-Growing group coordinates k t (omega arith) v)

  closest_inside :
      (substation : Point W) (a m c : ℕ)
      → a + m ≤ length group
      → c < length group
      → closest_to coordinates substation (range_from a m) c < length group
  unfolding closest_to
  closest_inside substation a zero c room h = h
  closest_inside substation a (suc m) c room h =
      closest_inside substation (suc a) m _ (omega arith) (ground arith)

  one_round : attach group coordinates (pick start (range (length group)) (negsuc 0)) start ≡ second
  unfolding attach pick
  one_round =
      ap (λ r. attach group coordinates r start)
        (picks_first 1 (length others) (omega arith) (omega arith))

  spanning : (substation : Point W) → Spans group (group_tree group coordinates substation)
  unfolding group_tree
  spanning substation = record {
    count = length-append grown.edges (last ∷ []) ∙ omega (arith, v.edges_long);
    joined = λ i inside. Linked.join (Linked-last grown.edges last) (
        Linked-more grown.edges (last ∷ [])
          (Linked.join (Linked.back (in_tree closest low)) (in_tree i inside)));
  }
    where
      grown : Tree W
      grown = grow group coordinates (length group) start

      v : Growing group coordinates (length group) grown
      v =
          unfold grow in
          subst
            (λ t.
              Growing group coordinates (length group) (grow group coordinates (length others) t))
            (sym one_round) (grow-Growing (length others) 1 second (omega arith) second-Growing)

      closest : ℕ
      closest = closest_to coordinates substation (range_from 1 (length group - 1)) 0

      low : closest < length group
      low = closest_inside substation 1 (length group - 1) 0 (omega arith) (omega arith)

      last : Edge W
      last = record {
        from = negsuc 0;
        to = get_or group closest 0;
        span = distance (at_index coordinates closest) substation;
      }

      in_tree :
          (i : ℕ)
          → i < length group
          → Linked grown.edges (node group coordinates 0) (node group coordinates i)
      in_tree i inside = v.linked i inside (
          all_marked grown.used i (omega (arith, v.counted, v.used_long))
            (omega (arith, v.used_long)))

-- With doubles whose infinity is not below 0, and a position for each turbine of the group, all at
-- finite distances from each other, `group_tree` returns as many cables as there are turbines, and
-- they join each of the turbines to the substation, so that they are a spanning tree.
pub group_tree-Spans :
    {W : Type 0} ⦃D : Double W⦄ (group : List ℕ) (coordinates : List (Point W))
    (substation : Point W)
    → D.lt D.infinity nought ≡ false
    → length coordinates ≡ length group
    → All (λ p. All (λ q. D.lt (distance p q) D.infinity ≡ true) coordinates) coordinates
    → Spans group (group_tree group coordinates substation)
unfolding group_tree
group_tree-Spans [] coordinates substation positive long close = record {
  count = refl;
  joined = λ i inside. absurd (omega arith);
}
group_tree-Spans ⦃D⦄ (turbine ∷ others) coordinates substation positive long close =
    spanning turbine others coordinates positive
      (λ i j i_low j_low.
        All-get_or (λ q. D.lt (distance (at_index coordinates i) q) D.infinity ≡ true) coordinates j
          _
          (All-get_or (λ p. All (λ q. D.lt (distance p q) D.infinity ≡ true) coordinates)
            coordinates i _ close (omega (arith, long)))
          (omega (arith, long)))
      substation
