-- ===== src/Wflop/Report.antt =====
-- `escape_json` and `to_json` of hpc/wflop_cpp/src/main.cpp.
pub mod RoundTrip
pub mod Object
mod Examples
use fode_hpc_wflop.Base.{Bool, List, [], ◌∷◌, ◌++◌, ◌||◌, if◌then◌else◌, ◌==◌, ℕ, ℤ, map, is_empty}
use fode_hpc_wflop.Text.{Text, chars, is}

unfoldable pub escape_json : Text → Text
escape_json [] = []
escape_json (ch ∷ value) =
    (if is ch b'"' || is ch b'\\' then chars "\\" else []) ++ ch ∷ escape_json value

-- A string between its quotes, as the records hold it.
abbrev pub quoted : Text → Text
quoted value = chars "\"" ++ escape_json value ++ chars "\""

-- `RunResult` of wflop/algorithms.hpp.
pub record RunResult (W : Type 0) : Type 0 where
  pub algorithm_id : Text
  pub method_id : Text
  pub algorithm_provenance : Text
  pub effective_semantics_id : Text
  pub problem_id : Text
  pub problem_semantics_id : Text
  pub case_id : Text
  pub seed : ℕ
  pub physical_fes : ℕ
  pub generations : ℕ
  pub initial_population : ℕ
  pub final_population : ℕ
  pub requested_workers : ℤ
  pub observed_workers : ℤ
  pub best_expected_power_kw : W
  pub best_layout_1based : List ℤ
  pub total_seconds : W
  pub evaluator_seconds : W
  pub algorithm_seconds : W
  pub pso_update_semantics : Text

-- How the stream prints numbers.
pub record Stream (W : Type 0) : Type 0 where
  pub put_ℕ : ℕ → Text
  pub put_ℤ : ℤ → Text
  pub put_double : W → Text

-- The numbers of an array, with commas between them.
unfoldable pub joined : List Text → Text
joined [] = []
joined (item ∷ []) = item
joined (item ∷ next ∷ items) = item ++ (chars "," ++ joined (next ∷ items))

-- `"name":` and what follows
abbrev pub named : Text → Text → Text
named name value = (chars "\"" ++ name ++ chars "\":") ++ value

-- The fields, with a comma behind each.
abbrev pub listed : List Text → Text
listed [] = []
listed (field ∷ fields) = field ++ (chars "," ++ listed fields)

module _ {W : Type 0} (out : Stream W) where
  abbrev pub array_of : List ℤ → Text
  array_of cells = chars "[" ++ (joined (map out.put_ℤ cells) ++ chars "]")

  abbrev pub timing_fields : RunResult W → Text
  timing_fields result =
      listed (
        named (chars "end_to_end") (out.put_double result.total_seconds)
        ∷ named (chars "evaluator") (out.put_double result.evaluator_seconds)
        ∷ [])
      ++ named (chars "algorithm") (out.put_double result.algorithm_seconds)

  abbrev pub timing_of : RunResult W → Text
  timing_of result = chars "{" ++ (timing_fields result ++ chars "}")

  -- The fields that every record has.
  abbrev pub fields_of : RunResult W → List Text
  fields_of result =
      named (chars "schema_version") (chars "1")
      ∷ named (chars "algorithm_id") (quoted result.algorithm_id)
      ∷ named (chars "method_id") (quoted result.method_id)
      ∷ named (chars "algorithm_provenance") (quoted result.algorithm_provenance)
      ∷ named (chars "effective_semantics_id") (quoted result.effective_semantics_id)
      ∷ named (chars "problem_id") (quoted result.problem_id)
      ∷ named (chars "problem_semantics_id") (quoted result.problem_semantics_id)
      ∷ named (chars "case_id") (quoted result.case_id)
      ∷ named (chars "seed") (out.put_ℕ result.seed)
      ∷ named (chars "physical_fes") (out.put_ℕ result.physical_fes)
      ∷ named (chars "generations") (out.put_ℕ result.generations)
      ∷ named (chars "initial_population") (out.put_ℕ result.initial_population)
      ∷ named (chars "final_population") (out.put_ℕ result.final_population)
      ∷ named (chars "requested_workers") (out.put_ℤ result.requested_workers)
      ∷ named (chars "observed_workers") (out.put_ℤ result.observed_workers)
      ∷ named (chars "best_expected_power_kw") (out.put_double result.best_expected_power_kw)
      ∷ named (chars "best_layout_1based") (array_of result.best_layout_1based)
      ∷ []

  abbrev pub semantics_of : Text → Text
  semantics_of text =
      if is_empty text then [] else chars "," ++ named (chars "pso_update_semantics") (quoted text)

  -- What stands between the outer braces.
  unfoldable pub body_of : RunResult W → Text
  body_of result =
      listed (fields_of result)
      ++ (named (chars "timing_seconds") (timing_of result)
          ++ semantics_of result.pso_update_semantics)

  unfoldable pub to_json : RunResult W → Text
  unfolding body_of
  to_json result = chars "{" ++ (body_of result ++ chars "}")
