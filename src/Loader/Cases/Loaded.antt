-- ===== src/Loader/Cases/Loaded.antt =====
-- The cases that `load_cases` and `load_case` of hpc/fode_cpp/src/case_loader.cpp return.
use text.Mathlib.Text.{◌==◌ as ◌≗◌}
use text.Mathlib.TextEquality.{eq_iff}
use fode_hpc_wflop.Base.{
  All-get_or, after_call, after_check, ok-injective, ap, ℕ, zero, suc, ◌<◌, ◌^◌, ◌≡◌, subst, true,
  false, Bool-cases, inl, inr, List, [], ◌∷◌, length, get_or, String, All, is_empty, Result, ok,
  Option, arith,
}
use fode_hpc_wflop.Case.{CaseData}
use fode_hpc_wflop.Double.{Double}
use fode_hpc_wflop.Text.{Text}
use fode_hpc_wflop.Fode.Grid.{IsCase, grid_dimension}
use fode_hpc_wflop.Loader.{CaseFields, check_case}
use fode_hpc_wflop.Loader.Admits.{check_case-IsCase}
use fode_hpc_wflop.Loader.Cases.{
  has_id, parse_fields, parse_case, cases_from, case_objects, load_cases, find_case, load_case,
}

module _ {W : Type 0} where
  -- The identifiers of a list of cases differ, from each other and from those in `ids`.
  abbrev pub Unrepeated : List String → List (CaseData W) → Type 0
  Unrepeated ids [] = Unit
  Unrepeated ids (c ∷ cs) = (has_id ids c.case_id ≡ false) × Unrepeated (c.case_id ∷ ids) cs

  -- A case behind `id` in the list has another identifier.
  apart :
      (id : String) (ids : List String) (cases : List (CaseData W))
      → has_id ids id ≡ true
      → Unrepeated ids cases
      → All (λ c. (id ≗ c.case_id) ≡ false) cases
  unfolding has_id
  apart id ids [] h u = tt
  apart id ids (c ∷ cs) h (new, u) = (
    elim (Bool-cases (id ≗ c.case_id)) [
      | inl same ↦ cc (ap (has_id ids) ((eq_iff id c.case_id).0 same))
      | inr other ↦ other
    ],
    apart id (c.case_id ∷ ids) cs (ground arith) u,
  )

  -- Each case is found by its identifier.
  find_case-Unrepeated :
      (ids : List String) (cases : List (CaseData W)) (i : ℕ) (d : CaseData W)
      → Unrepeated ids cases
      → i < length cases
      → find_case (get_or cases i d).case_id cases ≡ ok (get_or cases i d)
  unfolding find_case has_id
  find_case-Unrepeated ids [] i d u h = absurd (omega arith)
  find_case-Unrepeated ids (c ∷ cs) zero d u h = ground (arith, eq_iff c.case_id c.case_id)
  find_case-Unrepeated ids (c ∷ cs) (suc i) d (new, u) h =
      let other =
        All-get_or (λ e. (c.case_id ≗ e.case_id) ≡ false) cs i d
          (apart c.case_id (c.case_id ∷ ids) cs (ground (arith, eq_iff c.case_id c.case_id)) u)
          (omega arith) in
      rw other (find_case-Unrepeated (c.case_id ∷ ids) cs i d u (omega arith))

module _ {W : Type 0} ⦃D : Double W⦄ where
  module _ (strtod : Text → Option (W × ℕ)) where
    -- Each case comes from `check_case`.
    abbrev Checked : List (CaseData W) → Type 0
    Checked = All (λ c. (fields : CaseFields W) × (check_case fields ≡ ok c))

    from_fields :
        (object : Text) (c : CaseData W)
        → parse_case strtod object ≡ ok c
        → (fields : CaseFields W) × (check_case fields ≡ ok c)
    unfolding parse_case
    from_fields object c h =
        let (fields, e, k) = after_call (parse_fields strtod object) check_case _ h in (fields, k)

    cases_from-Unrepeated :
        (ids : List String) (objects : List Text) (cases : List (CaseData W))
        → cases_from strtod ids objects ≡ ok cases
        → Unrepeated ids cases × Checked cases
    unfolding cases_from
    cases_from-Unrepeated ids [] cases h =
        subst (λ cs. Unrepeated ids cs × Checked cs) (ok-injective [] cases h) (tt, tt)
    cases_from-Unrepeated ids (object ∷ objects) cases h =
        let (c, e, h1) = after_call (parse_case strtod object) _ _ h in
        let (new, h2) = after_check (has_id ids c.case_id) _ _ _ h1 in
        let (cs, e', h3) = after_call (cases_from strtod (c.case_id ∷ ids) objects) _ _ h2 in
        let (distinct, checked) = cases_from-Unrepeated (c.case_id ∷ ids) objects cs e' in
        subst (λ cs. Unrepeated ids cs × Checked cs) (ok-injective (c ∷ cs) cases h3)
          ((new, distinct), (from_fields object c e, checked))

    IsCase-Checked :
        (cases : List (CaseData W))
        → All (λ c. grid_dimension c < 2 ^ 31) cases
        → Checked cases
        → All IsCase cases
    IsCase-Checked [] small checked = tt
    IsCase-Checked (c ∷ cs) (small, smalls) ((fields, h), checked) =
        (check_case-IsCase fields c h small, IsCase-Checked cs smalls checked)

    module _ (read_text : String → Result Text) (path : String) (cases : List (CaseData W))
        (loaded : load_cases strtod read_text path ≡ ok cases) where
      contents : (is_empty cases ≡ false) × Unrepeated [] cases × Checked cases
      unfolding load_cases
      contents =
          let (document, e1, h1) = after_call (read_text path) _ _ loaded in
          let (objects, e2, h2) = after_call (case_objects document) _ _ h1 in
          let (cs, e3, h3) = after_call (cases_from strtod [] objects) _ _ h2 in
          let (full, h4) = after_check (is_empty cs) _ _ _ h3 in
          let (distinct, checked) = cases_from-Unrepeated [] objects cs e3 in
          subst (λ cs. (is_empty cs ≡ false) × Unrepeated [] cs × Checked cs)
            (ok-injective cs cases h4) (full, distinct, checked)

      -- Where `load_cases` returns cases on grids of fewer than 2 ^ 31 cells, there is one at
      -- least, no identifier is repeated, and each case is admitted: it has a turbine at least,
      -- every unavailable cell is on the grid, and the grid has room for the turbines beside the
      -- unavailable cells.
      pub load_cases-IsCase :
          All (λ c. grid_dimension c < 2 ^ 31) cases
          → (is_empty cases ≡ false) × Unrepeated [] cases × All IsCase cases
      load_cases-IsCase small = (contents.0, contents.1, IsCase-Checked cases small contents.2)

      -- Where `load_cases` returns, `load_case` returns each of its cases for the identifier of
      -- that case.
      pub load_case-load_cases :
          (i : ℕ) (d : CaseData W)
          → i < length cases
          → load_case strtod read_text path (get_or cases i d).case_id ≡ ok (get_or cases i d)
      unfolding load_case
      load_case-load_cases i d h = rw loaded (find_case-Unrepeated [] cases i d contents.1 h)
