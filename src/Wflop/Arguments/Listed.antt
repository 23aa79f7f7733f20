-- ===== src/Wflop/Arguments/Listed.antt =====
-- `parse_algorithm_list` of hpc/wflop_cpp/src/main.cpp undoes a join with commas, and nothing else.
use mathlib.Core.List.{append-nil, append_assoc}
use fode_hpc_wflop.Base.{
  All, false, Bool-cases, inl, inr, ◌≡◌, refl, ap, ap₂, sym, subst, ◌∙◌, List, [], ◌∷◌, ◌++◌,
  is_empty, if◌then◌else◌, Result, ok, ◌>>=◌, ◌>>◌, after_call, after_check, ok-injective,
}
use fode_hpc_wflop.Text.{Text, chars, is, same_char}
use fode_hpc_wflop.Wflop.Report.{joined}
use fode_hpc_wflop.Wflop.Arguments.{refuse_empty, ids_from, parse_algorithm_list}

-- An identifier of the list: some characters, and no comma.
abbrev pub IsId : Text → Type 0
IsId id = (is_empty id ≡ false) × All (λ ch. is ch b',' ≡ false) id

accepted :
    {B : Type 0} (id : Text) (m : Result B) → is_empty id ≡ false → (refuse_empty id >> m) ≡ m
accepted [] m h = cc
accepted (c ∷ id) m h = refl

last_id :
    (id text : Text)
    → is_empty (id ++ text) ≡ false
    → All (λ ch. is ch b',' ≡ false) text
    → ids_from id text ≡ ok ((id ++ text) ∷ [])
unfolding ids_from
last_id id [] h p =
    rw (append-nil id) (accepted id _ (subst (λ t. is_empty t ≡ false) (append-nil id) h))
last_id id (c ∷ text) h (p, ps) =
    let again = append_assoc id (c ∷ []) text in
    rw p (
      last_id (id ++ c ∷ []) text (subst (λ t. is_empty t ≡ false) (sym again) h) ps
      ∙ ap (λ t. ok (t ∷ [])) again)

earlier_id :
    (id text rest : Text)
    → is_empty (id ++ text) ≡ false
    → All (λ ch. is ch b',' ≡ false) text
    → ids_from id (text ++ (chars "," ++ rest))
      ≡ (ids_from [] rest >>= (λ ids. ok ((id ++ text) ∷ ids)))
unfolding ids_from
earlier_id id [] rest h p =
    rw (append-nil id) (accepted id _ (subst (λ t. is_empty t ≡ false) (append-nil id) h))
earlier_id id (c ∷ text) rest h (p, ps) =
    let again = append_assoc id (c ∷ []) text in
    rw p (
      earlier_id (id ++ c ∷ []) text rest (subst (λ t. is_empty t ≡ false) (sym again) h) ps
      ∙ ap (λ t. ids_from [] rest >>= (λ ids. ok (t ∷ ids))) again)

ids_from-joined :
    (id : Text) (ids : List Text)
    → All IsId (id ∷ ids)
    → ids_from [] (joined (id ∷ ids)) ≡ ok (id ∷ ids)
unfolding joined
ids_from-joined id [] ((full, free), h) = last_id [] id full free
ids_from-joined id (other ∷ ids) ((full, free), h) =
    earlier_id [] id (joined (other ∷ ids)) full free
    ∙ ap (λ r. r >>= (λ more. ok (id ∷ more))) (ids_from-joined other ids h)

-- Identifiers, one at least, none empty and none with a comma, are read back by
-- `parse_algorithm_list` from their join with commas.
pub parse_algorithm_list-joined :
    (id : Text) (ids : List Text)
    → All IsId (id ∷ ids)
    → parse_algorithm_list (joined (id ∷ ids)) ≡ ok (id ∷ ids)
unfolding parse_algorithm_list
parse_algorithm_list-joined id ids h = rw (ids_from-joined id ids h) refl

abbrev pub Full : Text → Type 0
Full id = is_empty id ≡ false

joined-cons :
    (id : Text) (ids : List Text)
    → is_empty ids ≡ false
    → joined (id ∷ ids) ≡ id ++ (chars "," ++ joined ids)
unfolding joined
joined-cons id [] h = cc
joined-cons id (other ∷ ids) h = refl

-- What the loop returns, joined again.
abbrev Rejoins : Text → Text → List Text → Type 0
Rejoins id text ids = (joined ids ≡ id ++ text) × All Full ids × (is_empty ids ≡ false)

joined-ids_from :
    (id text : Text) (ids : List Text) → ids_from id text ≡ ok ids → Rejoins id text ids
unfolding ids_from joined
joined-ids_from id [] ids h =
    let (full, e) = after_check (is_empty id) _ _ ids h in
    subst (Rejoins id []) (ok-injective (id ∷ []) ids e) (sym (append-nil id), (full, tt), refl)
joined-ids_from id (c ∷ text) ids h = elim (Bool-cases (is c b',')) [
  | inl comma ↦
      let (full, e) = after_check (is_empty id) _ _ ids (
        subst
          (λ b.
            (if b
              then refuse_empty id >> (ids_from [] text >>= (λ ids. ok (id ∷ ids)))
              else ids_from (id ++ c ∷ []) text)
            ≡ ok ids)
          comma h) in
      let (more, e', k) = after_call (ids_from [] text) _ ids e in
      let (again, fulls, some') = joined-ids_from [] text more e' in
      subst (Rejoins id (c ∷ text)) (ok-injective (id ∷ more) ids k) (
        joined-cons id more some'
            ∙ ap (λ t. id ++ t) (ap₂ (λ d t. d ∷ t) (same_char c "," comma) again),
        (full, fulls),
        refl,
      )
  | inr other ↦
      let (again, fulls, some') = joined-ids_from (id ++ c ∷ []) text ids (
        subst
          (λ b.
            (if b
              then refuse_empty id >> (ids_from [] text >>= (λ ids. ok (id ∷ ids)))
              else ids_from (id ++ c ∷ []) text)
            ≡ ok ids)
          other h) in
      (again ∙ append_assoc id (c ∷ []) text, fulls, some')
]

-- The identifiers that `parse_algorithm_list` returns give its text when they are joined with
-- commas; there is one at least, and none is empty.
pub joined-parse_algorithm_list :
    (text : Text) (ids : List Text)
    → parse_algorithm_list text ≡ ok ids
    → (joined ids ≡ text) × All Full ids × (is_empty ids ≡ false)
unfolding parse_algorithm_list
joined-parse_algorithm_list text ids h =
    let (found, e, k) = after_call (ids_from [] text) _ ids h in
    let (checked, same) = after_check (is_empty found) _ _ ids k in
    joined-ids_from [] text ids (e ∙ same)
