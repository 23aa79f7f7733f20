-- ===== src/Wflop/Report/Object.antt =====
-- A record of hpc/wflop_cpp/src/main.cpp is one object to the JSON reader of
-- hpc/fode_cpp/src/case_loader.cpp, whatever its strings hold.
use fode_hpc_wflop.Base.{
  ℕ, ℤ, Bool-cases, inl, inr, List, [], ◌∷◌, ◌++◌, ◌≡◌, refl, subst, sym, map, ok, All,
}
use mathlib.Core.List.{append_assoc}
use fode_hpc_wflop.Text.{Text, chars, is}
use fode_hpc_wflop.Loader.Json.{start, matching_delimiter}
use fode_hpc_wflop.Loader.Json.Neutral.{
  Takes, level, inside, Neutral, Neutral-append, IsPlain, Neutral-IsPlain, Neutral-braces,
  matching_delimiter-object,
}
use fode_hpc_wflop.Wflop.Report.{
  escape_json, quoted, RunResult, Stream, joined, named, listed, array_of, timing_of, fields_of,
  semantics_of, body_of, to_json,
}

escaped : (v : Text) (d : ℕ) → Takes (inside d) (escape_json v ++ chars "\"") (level d)
unfolding escape_json
escaped [] d = (refl, refl)
escaped (c ∷ v) d =
    let rest = escaped v d in
    elim (Bool-cases (is c b'"')) [
      | inl quote ↦ rw quote rest
      | inr plain ↦ elim (Bool-cases (is c b'\\')) [
        | inl slash ↦ rw plain (rw slash rest)
        | inr other ↦ rw plain (rw other (rw other (rw plain rest)))
      ]
    ]

Neutral-quoted : (v : Text) → Neutral (quoted v)
Neutral-quoted v = record { at = escaped v }

data Fields : List Text → Type 0 where
  nil : Fields []
  cons :
      {field : Text} {fields : List Text} → Neutral field → Fields fields → Fields (field ∷ fields)

comma : Neutral (chars ",")
comma = record { at = λ d. (refl, refl) }

left_bracket : Neutral (chars "[")
left_bracket = record { at = λ d. (refl, refl) }

right_bracket : Neutral (chars "]")
right_bracket = record { at = λ d. (refl, refl) }

Neutral-joined : {items : List Text} → Fields items → Neutral (joined items)
unfolding joined
Neutral-joined nil = record { at = λ d. (refl, refl) }
Neutral-joined (cons h nil) = h
Neutral-joined (cons h (cons k hs)) =
    Neutral-append h (Neutral-append comma (Neutral-joined (cons k hs)))

Neutral-listed : {fields : List Text} → Fields fields → Neutral (listed fields)
Neutral-listed nil = record { at = λ d. (refl, refl) }
Neutral-listed (cons h hs) = Neutral-append h (Neutral-append comma (Neutral-listed hs))

-- A name with its quotes and colon.
abbrev IsName : Text → Type 0
IsName name = (d : ℕ) → Takes (level d) (chars "\"" ++ name ++ chars "\":") (level d)

Neutral-named :
    {value : Text} (name : Text) → IsName name → Neutral value → Neutral (named name value)
Neutral-named name h k =
    Neutral-append {a = chars "\"" ++ name ++ chars "\":"} (record { at = h }) k

-- Numbers are printed without quotes and braces.
pub record IsNumeric {W : Type 0} (out : Stream W) : Type 0 where
  pub plain_ℕ : (n : ℕ) → All IsPlain (out.put_ℕ n)
  pub plain_ℤ : (n : ℤ) → All IsPlain (out.put_ℤ n)
  pub plain_double : (x : W) → All IsPlain (out.put_double x)

module _ {W : Type 0} (out : Stream W) (numeric : IsNumeric out) where
  natural : (n : ℕ) → Neutral (out.put_ℕ n)
  natural n = Neutral-IsPlain (numeric.plain_ℕ n)

  integer : (n : ℤ) → Neutral (out.put_ℤ n)
  integer n = Neutral-IsPlain (numeric.plain_ℤ n)

  double : (x : W) → Neutral (out.put_double x)
  double x = Neutral-IsPlain (numeric.plain_double x)

  integers : (cells : List ℤ) → Fields (map out.put_ℤ cells)
  integers [] = nil
  integers (cell ∷ cells) = cons (integer cell) (integers cells)

  Neutral-array_of : (cells : List ℤ) → Neutral (array_of out cells)
  Neutral-array_of cells =
      Neutral-append left_bracket (Neutral-append (Neutral-joined (integers cells)) right_bracket)

  Neutral-timing_of : (r : RunResult W) → Neutral (timing_of out r)
  Neutral-timing_of r = Neutral-braces (
      Neutral-append
        (Neutral-listed (
          cons (Neutral-named (chars "end_to_end") (λ d. (refl, refl)) (double r.total_seconds)) (
            cons
              (Neutral-named (chars "evaluator") (λ d. (refl, refl)) (double r.evaluator_seconds))
              nil)))
        (Neutral-named (chars "algorithm") (λ d. (refl, refl)) (double r.algorithm_seconds)))

  Fields-fields_of : (r : RunResult W) → Fields (fields_of out r)
  Fields-fields_of r =
      cons
        (Neutral-named (chars "schema_version") (λ d. (refl, refl))
          (record { at = λ d. (refl, refl) }))
        (cons
          (Neutral-named (chars "algorithm_id") (λ d. (refl, refl)) (Neutral-quoted r.algorithm_id))
          (cons (Neutral-named (chars "method_id") (λ d. (refl, refl)) (Neutral-quoted r.method_id))
            (cons
              (Neutral-named (chars "algorithm_provenance") (λ d. (refl, refl))
                (Neutral-quoted r.algorithm_provenance))
              (cons
                (Neutral-named (chars "effective_semantics_id") (λ d. (refl, refl))
                  (Neutral-quoted r.effective_semantics_id))
                (cons
                  (Neutral-named (chars "problem_id") (λ d. (refl, refl))
                    (Neutral-quoted r.problem_id))
                  (cons
                    (Neutral-named (chars "problem_semantics_id") (λ d. (refl, refl))
                      (Neutral-quoted r.problem_semantics_id))
                    (cons
                      (Neutral-named (chars "case_id") (λ d. (refl, refl))
                        (Neutral-quoted r.case_id))
                      (cons (Neutral-named (chars "seed") (λ d. (refl, refl)) (natural r.seed)) (
                        cons
                          (Neutral-named (chars "physical_fes") (λ d. (refl, refl))
                            (natural r.physical_fes))
                          (cons
                            (Neutral-named (chars "generations") (λ d. (refl, refl))
                              (natural r.generations))
                            (cons
                              (Neutral-named (chars "initial_population") (λ d. (refl, refl))
                                (natural r.initial_population))
                              (cons
                                (Neutral-named (chars "final_population") (λ d. (refl, refl))
                                  (natural r.final_population))
                                (cons
                                  (Neutral-named (chars "requested_workers") (λ d. (refl, refl))
                                    (integer r.requested_workers))
                                  (cons
                                    (Neutral-named (chars "observed_workers") (λ d. (refl, refl))
                                      (integer r.observed_workers))
                                    (cons
                                      (Neutral-named (chars "best_expected_power_kw")
                                        (λ d. (refl, refl)) (double r.best_expected_power_kw))
                                      (cons
                                        (Neutral-named (chars "best_layout_1based")
                                          (λ d. (refl, refl))
                                          (Neutral-array_of r.best_layout_1based))
                                        nil))))))))))))))))

  Neutral-semantics_of : (v : Text) → Neutral (semantics_of out v)
  Neutral-semantics_of [] = record { at = λ d. (refl, refl) }
  Neutral-semantics_of (c ∷ v) =
      Neutral-append comma
        (Neutral-named (chars "pso_update_semantics") (λ d. (refl, refl)) (Neutral-quoted (c ∷ v)))

  Neutral-body_of : (r : RunResult W) → Neutral (body_of out r)
  unfolding body_of
  Neutral-body_of r = Neutral-append (Neutral-listed (Fields-fields_of r)) (
      Neutral-append
        (Neutral-named (chars "timing_seconds") (λ d. (refl, refl)) (Neutral-timing_of r))
        (Neutral-semantics_of r.pso_update_semantics))

  -- Where numbers are printed without quotes and braces, a record of `to_json` is a single object
  -- to `matching_delimiter`, whatever its texts hold: the value that begins at its first brace ends
  -- at its last one, with any text behind it.
  pub matching_delimiter-to_json :
      (r : RunResult W) (rest : Text)
      → matching_delimiter "{" "}" start (to_json out r ++ rest) ≡ ok (to_json out r, rest)
  unfolding to_json
  matching_delimiter-to_json r rest =
      subst
        (λ t.
          matching_delimiter "{" "}" start (chars "{" ++ t)
          ≡ ok (chars "{" ++ (body_of out r ++ chars "}"), rest))
        (sym (append_assoc (body_of out r) (chars "}") rest))
        (matching_delimiter-object (body_of out r) rest (Neutral-body_of r))
