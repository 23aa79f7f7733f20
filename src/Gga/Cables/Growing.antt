-- ===== src/Gga/Cables/Growing.antt =====
-- A round of `group_tree` adds an index and the edge from its parent.
use fode_hpc_wflop.Base.{
  ℕ, suc, ◌+◌, ◌<◌, ◌≡◌, ◌≢◌, refl, sym, ap, subst, ◌∙◌, ℤ, pos, negsuc, Bool, true, false, inl,
  inr, List, [], ◌∷◌, ◌++◌, ◌==◌, length, get_or, set, range, get_or-set_self, get_or-set_ne,
  length-set, length-append, Bool-cases, arith,
}
use fode_hpc_wflop.Double.{Double}
use fode_hpc_wflop.Fode.Grid.Masks.{count_marks, count_marks-set}
use fode_hpc_wflop.Gga.Cables.{Point, Edge, Tree, pick, apart, parent_edge, relax, attach}
use fode_hpc_wflop.Gga.Cables.Linked.{Linked, Linked-more, Linked-last}
use fode_hpc_wflop.Gga.Cables.Marked.{some_clear, pick-Picked, Relaxed, relax-Relaxed}

module _ {W : Type 0} ⦃D : Double W⦄ (group : List ℕ) (coordinates : List (Point W)) where
  abbrev pub node : ℕ → ℤ
  node i = pos (get_or group i 0)

  -- After `k` rounds: `k` indices are used, all joined, and the others have a used one as parent.
  pub record Growing (k : ℕ) (t : Tree W) : Type 0 where
    pub used_long : length t.used ≡ length group
    pub parents_long : length t.parents ≡ length group
    pub counted : count_marks t.used ≡ k
    pub edges_long : length t.edges + 1 ≡ k
    pub waiting :
        (i : ℕ)
        → i < length group
        → get_or t.used i false ≡ false
        → (p : ℕ) × (get_or t.parents i (negsuc 0) ≡ pos p)
          × (p < length group)
          × (get_or t.used p false ≡ true)
    pub linked :
        (i : ℕ) → i < length group → get_or t.used i false ≡ true → Linked t.edges (node 0) (node i)

  module _ (k : ℕ) (t : Tree W) (v : Growing k t) (c : ℕ) (low : c < length group)
      (clear : get_or t.used c false ≡ false) where
    abbrev marked : List Bool
    marked = set t.used c true

    marked_self : get_or marked c false ≡ true
    marked_self = get_or-set_self t.used c true false (omega (arith, v.used_long))

    marked_old : (i : ℕ) → i ≢ c → get_or marked i false ≡ get_or t.used i false
    marked_old i other = get_or-set_ne t.used c i true false (λ p. other (sym p))

    marked_stays : (i : ℕ) → get_or t.used i false ≡ true → get_or marked i false ≡ true
    marked_stays i h = elim (Bool-cases (i == c)) [
      | inl same ↦ let p : i ≡ c = ground arith in rw p marked_self
      | inr other ↦ let q : i ≢ c = λ p. ground arith in marked_old i q ∙ h
    ]

    abbrev parent : ℕ
    parent = (v.waiting c low clear).0

    abbrev cable : Edge W
    cable = record { from = node parent; to = get_or group c 0; span = apart coordinates parent c }

    abbrev before : Tree W
    before = record t {
      used = marked;
      edges = t.edges ++ parent_edge group coordinates (get_or t.parents c (negsuc 0)) c;
    }

    edges_before : before.edges ≡ t.edges ++ cable ∷ []
    edges_before = let (p, e, _, _) = v.waiting c low clear in rw e refl

    abbrev after : Tree W
    after = relax group coordinates c (range (length group)) before

    relaxed : Relaxed group coordinates c (length group) 0 (length group) before after
    relaxed = relax-Relaxed group coordinates c (length group) 0 (length group) before

    used_after : (i : ℕ) → get_or after.used i false ≡ get_or marked i false
    used_after i = ap (λ os. get_or os i false) relaxed.used_same

    edges_after : after.edges ≡ t.edges ++ cable ∷ []
    edges_after = relaxed.edges_same ∙ edges_before

    linked_before :
        (i : ℕ)
        → i < length group
        → get_or marked i false ≡ true
        → Linked (t.edges ++ cable ∷ []) (node 0) (node i)
    linked_before i inside h = elim (Bool-cases (i == c)) [
      | inl same ↦
          let p : i ≡ c = ground arith in
          let (_, _, parent_low, parent_used) = v.waiting c low clear in
          rw p (
            Linked.join (Linked-more t.edges (cable ∷ []) (v.linked parent parent_low parent_used))
              (Linked-last t.edges cable))
      | inr other ↦
          let q : i ≢ c = λ p. ground arith in
          Linked-more t.edges (cable ∷ []) (v.linked i inside (sym (marked_old i q) ∙ h))
    ]

    waiting_after :
        (i : ℕ)
        → i < length group
        → get_or marked i false ≡ false
        → (p : ℕ) × (get_or after.parents i (negsuc 0) ≡ pos p)
          × (p < length group)
          × (get_or marked p false ≡ true)
    waiting_after i inside h =
        let q : i ≢ c = λ p. cc (h, marked_self, p) in
        let (p, e, parent_low, parent_used) = v.waiting i inside (sym (marked_old i q) ∙ h) in
        elim (relaxed.parents i) [
          | inl old ↦ (p, old ∙ e, parent_low, marked_stays p parent_used)
          | inr new ↦ (c, new, low, marked_self)
        ]

    attached-Growing : Growing (suc k) after
    attached-Growing = record {
      used_long = ap length relaxed.used_same ∙ length-set t.used c true ∙ v.used_long;
      parents_long = relaxed.parents_long ∙ v.parents_long;
      counted =
          ap count_marks relaxed.used_same
          ∙ count_marks-set t.used c (omega (arith, v.used_long)) clear
          ∙ omega (arith, v.counted);
      edges_long =
          omega (arith, ap length edges_after, length-append t.edges (cable ∷ []), v.edges_long);
      waiting = λ i inside h.
          let (p, e, parent_low, parent_used) = waiting_after i inside (sym (used_after i) ∙ h) in
          (p, e, parent_low, used_after p ∙ parent_used);
      linked = λ i inside h.
          subst (λ es. Linked es (node 0) (node i)) (sym edges_after)
            (linked_before i inside (sym (used_after i) ∙ h));
    }

  pub attach-Growing :
      (k : ℕ) (t : Tree W)
      → k < length group
      → Growing k t
      → Growing (suc k) (attach group coordinates (pick t (range (length group)) (negsuc 0)) t)
  unfolding attach
  attach-Growing k t more v =
      let (j, low, clear) = some_clear t.used (omega (arith, v.used_long, v.counted)) in
      let picked =
        pick-Picked (length group) t 0 (length group) j (omega arith) (omega arith)
          (omega (arith, v.used_long)) clear in
      rw picked.is_chosen (attached-Growing k t v picked.chosen picked.low picked.clear)
