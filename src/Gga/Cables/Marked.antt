-- ===== src/Gga/Cables/Marked.antt =====
-- What the loops of `group_tree` do to the indices.
use fode_hpc_wflop.Base.{
  ℕ, zero, suc, ◌+◌, ◌≤◌, ◌<◌, ◌≡◌, ◌≢◌, refl, ◌∙◌, ℤ, pos, negsuc, Bool, true, false, not, ◌&&◌,
  ◌⊎◌, inl, inr, List, [], ◌∷◌, ◌==◌, length, get_or, set, range_from, get_or-set_self,
  get_or-set_ne, length-set, Bool-cases, arith,
}
use fode_hpc_wflop.Double.{Double, nought}
use fode_hpc_wflop.Fode.Grid.Masks.{count_marks, count_marks-le}
use fode_hpc_wflop.Gga.Cables.{Point, Tree, comes_first, pick, apart, relax}

-- Below its length a count has an index without a mark; at its length it has none.
pub some_clear :
    (os : List Bool)
    → count_marks os < length os
    → (i : ℕ) × (i < length os) × (get_or os i false ≡ false)
some_clear [] h = absurd (omega arith)
some_clear (false ∷ os) h = (0, omega arith, refl)
some_clear (true ∷ os) h =
    let (i, low, clear) = some_clear os (omega arith) in (suc i, omega arith, clear)

pub all_marked :
    (os : List Bool) (i : ℕ) → count_marks os ≡ length os → i < length os → get_or os i false ≡ true
all_marked [] i h low = absurd (omega arith)
all_marked (true ∷ os) zero h low = refl
all_marked (true ∷ os) (suc i) h low = all_marked os i (omega arith) (omega arith)
all_marked (false ∷ os) i h low = absurd (omega (arith, count_marks-le os))

set_cases :
    (xs : List ℤ) (i j : ℕ) (v d : ℤ)
    → (get_or (set xs i v) j d ≡ get_or xs j d) ⊎ (get_or (set xs i v) j d ≡ v)
set_cases [] i j v d = inl refl
set_cases (x ∷ xs) zero zero v d = inr refl
set_cases (x ∷ xs) zero (suc j) v d = inl refl
set_cases (x ∷ xs) (suc i) zero v d = inl refl
set_cases (x ∷ xs) (suc i) (suc j) v d = set_cases xs i j v d

module _ {W : Type 0} ⦃D : Double W⦄ where
  pub record Picked (n : ℕ) (t : Tree W) (r : ℤ) : Type 0 where
    pub chosen : ℕ
    pub is_chosen : r ≡ pos chosen
    pub low : chosen < n
    pub clear : get_or t.used chosen false ≡ false

  module _ (n : ℕ) (t : Tree W) where
    pick_keeps :
        (a m c : ℕ)
        → a + m ≤ n
        → c < n
        → get_or t.used c false ≡ false
        → Picked n t (pick t (range_from a m) (pos c))
    unfolding pick
    pick_keeps a zero c room low h = record { chosen = c; is_chosen = refl; low = low; clear = h }
    pick_keeps a (suc m) c room low h =
        elim (Bool-cases (not (get_or t.used a false) && comes_first t.keys a (pos c))) [
          | inl first ↦
              rw (first, pick) (pick_keeps (suc a) m a (omega arith) (omega arith) (ground arith))
          | inr later ↦ rw (later, pick) (pick_keeps (suc a) m c (omega arith) low h)
        ]

    -- The selection finds an unused index when there is one.
    pub pick-Picked :
        (a m j : ℕ)
        → a + m ≤ n
        → a ≤ j
        → j < a + m
        → get_or t.used j false ≡ false
        → Picked n t (pick t (range_from a m) (negsuc 0))
    unfolding pick
    pick-Picked a zero j room above below h = absurd (omega arith)
    pick-Picked a (suc m) j room above below h = elim (Bool-cases (get_or t.used a false)) [
      | inl used ↦
          rw (used, pick)
            (pick-Picked (suc a) m j (omega arith)
              (elim (Bool-cases (a == j)) [
                | inl same ↦ absurd (let p : a ≡ j = ground arith in cc (used, h, p))
                | inr other ↦ ground arith
              ])
              (omega arith) h)
      | inr clear ↦ rw (clear, pick) (pick_keeps (suc a) m a (omega arith) (omega arith) clear)
    ]

  module _ (group : List ℕ) (coordinates : List (Point W)) (selected n : ℕ) where
    abbrev nearer : ℕ → Tree W → Bool
    nearer other t =
        not (get_or t.used other false)
        && D.lt (apart coordinates selected other) (get_or t.keys other nought)

    abbrev set_near : ℕ → Tree W → Tree W
    set_near other t = record t {
      keys = set t.keys other (apart coordinates selected other);
      parents = set t.parents other (pos selected);
    }

    -- The loop over `other` gives the selected index as the parent, or leaves the parent.
    pub record Relaxed (a m : ℕ) (t u : Tree W) : Type 0 where
      pub used_same : u.used ≡ t.used
      pub edges_same : u.edges ≡ t.edges
      pub parents_long : length u.parents ≡ length t.parents
      pub parents :
          (i : ℕ)
          → (get_or u.parents i (negsuc 0) ≡ get_or t.parents i (negsuc 0))
            ⊎ (get_or u.parents i (negsuc 0) ≡ pos selected)
      pub reached :
          (i : ℕ)
          → a ≤ i
          → i < a + m
          → i < length t.parents
          → get_or t.used i false ≡ false
          → D.lt (apart coordinates selected i) (get_or t.keys i nought) ≡ true
          → get_or u.parents i (negsuc 0) ≡ pos selected

    pub relax-Relaxed :
        (a m : ℕ) (t : Tree W) → Relaxed a m t (relax group coordinates selected (range_from a m) t)
    unfolding relax
    relax-Relaxed a zero t = record {
      used_same = refl;
      edges_same = refl;
      parents_long = refl;
      parents = λ i. inl refl;
      reached = λ i above below. absurd (omega arith);
    }
    relax-Relaxed a (suc m) t = elim (Bool-cases (nearer a t)) [
      | inl near ↦
          rw (near, relax)
            (let rest = relax-Relaxed (suc a) m (set_near a t) in
              record {
                used_same = rest.used_same;
                edges_same = rest.edges_same;
                parents_long = rest.parents_long ∙ length-set t.parents a (pos selected);
                parents = λ i. elim (rest.parents i) [
                  | inr now ↦ inr now
                  | inl before ↦ elim (set_cases t.parents a i (pos selected) (negsuc 0)) [
                    | inl old ↦ inl (before ∙ old)
                    | inr new ↦ inr (before ∙ new)
                  ]
                ];
                reached = λ i above below inside clear close. elim (Bool-cases (a == i)) [
                  | inl same ↦ elim (rest.parents i) [
                    | inr now ↦ now
                    | inl before ↦
                        let p : a ≡ i = ground arith in
                        before ∙ rw p (get_or-set_self t.parents i (pos selected) (negsuc 0) inside)
                  ]
                  | inr other ↦
                      let apart_from : a ≢ i = λ p. ground arith in
                      rest.reached i (ground arith) (omega arith)
                        (omega (arith, length-set t.parents a (pos selected))) clear
                        (rw
                          (get_or-set_ne t.keys a i (apart coordinates selected a) nought
                            apart_from)
                          close)
                ];
              })
      | inr far ↦
          rw (far, relax)
            (let rest = relax-Relaxed (suc a) m t in
              record {
                used_same = rest.used_same;
                edges_same = rest.edges_same;
                parents_long = rest.parents_long;
                parents = rest.parents;
                reached = λ i above below inside clear close. elim (Bool-cases (a == i)) [
                  | inl same ↦ let p : a ≡ i = ground arith in absurd (cc (far, p, clear, close))
                  | inr other ↦ rest.reached i (ground arith) (omega arith) inside clear close
                ];
              })
    ]
