-- ===== src/Gga/Cables/Linked.antt =====
-- Nodes that edges of a cable plan join.
use fode_hpc_wflop.Base.{
  ℕ, zero, suc, ◌<◌, ◌≡◌, refl, ◌∙◌, ℤ, pos, List, [], ◌∷◌, ◌++◌, length, get_or, length-append,
  arith,
}
use fode_hpc_wflop.Gga.Cables.{Edge}

-- `edges` lead from one node to the other, in either direction; -1 is the substation.
pub data Linked {W : Type 0} (edges : List (Edge W)) : ℤ → ℤ → Type 0 where
  here : {a : ℤ} → Linked edges a a
  cable :
      (i : ℕ) (e : Edge W)
      → i < length edges
      → get_or edges i e ≡ e
      → Linked edges e.from (pos e.to)
  back : {a b : ℤ} → Linked edges a b → Linked edges b a
  join : {a b c : ℤ} → Linked edges a b → Linked edges b c → Linked edges a c

module _ {W : Type 0} where
  get_or-append :
      (xs ys : List (Edge W)) (i : ℕ) (d : Edge W)
      → i < length xs
      → get_or (xs ++ ys) i d ≡ get_or xs i d
  get_or-append [] ys i d h = absurd (omega arith)
  get_or-append (x ∷ xs) ys zero d h = refl
  get_or-append (x ∷ xs) ys (suc i) d h = get_or-append xs ys i d (omega arith)

  get_or-end : (xs : List (Edge W)) (e : Edge W) → get_or (xs ++ e ∷ []) (length xs) e ≡ e
  get_or-end [] e = refl
  get_or-end (x ∷ xs) e = get_or-end xs e

  pub Linked-more : (xs ys : List (Edge W)) {a b : ℤ} → Linked xs a b → Linked (xs ++ ys) a b
  Linked-more xs ys here = here
  Linked-more xs ys (cable i e h p) =
      cable i e (omega (arith, length-append xs ys)) (get_or-append xs ys i e h ∙ p)
  Linked-more xs ys (back l) = back (Linked-more xs ys l)
  Linked-more xs ys (join l r) = join (Linked-more xs ys l) (Linked-more xs ys r)

  pub Linked-last : (xs : List (Edge W)) (e : Edge W) → Linked (xs ++ e ∷ []) e.from (pos e.to)
  Linked-last xs e =
      cable (length xs) e (omega (arith, length-append xs (e ∷ []))) (get_or-end xs e)
