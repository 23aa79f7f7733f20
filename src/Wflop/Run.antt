-- ===== src/Wflop/Run.antt =====
-- The runs of `main` in hpc/wflop_cpp/src/main.cpp: every algorithm on every case, each result
-- validated before its record is kept. The optimizer and the loader are parameters; the listing
-- options, the self check and the progress on the error stream are left out.
mod Examples
use text.Mathlib.Text.{◌==◌ as ◌≗◌}
use fode_hpc_wflop.Base.{
  ℕ, List, [], ◌∷◌, ◌++◌, map, is_empty, String, Bool, if◌then◌else◌, Result, ok, runtime_error,
  ◌>>=◌, ◌>>◌, throw_if,
}
use fode_hpc_wflop.Case.{CaseData}
use fode_hpc_wflop.Double.{Double}
use fode_hpc_wflop.Text.{Text, chars, string_of}
use fode_hpc_wflop.Wflop.Registry.{algorithm_ids}
use fode_hpc_wflop.Wflop.Dispatch.{RunConfig}
use fode_hpc_wflop.Wflop.Arguments.{Arguments}
use fode_hpc_wflop.Wflop.Report.{RunResult, Stream, to_json}
use fode_hpc_wflop.Wflop.Validate.{validate_result}

unfoldable pub chosen_algorithms : Arguments → List String
chosen_algorithms a =
    if a.all_algorithms
    then algorithm_ids
    else if is_empty a.algorithms
    then a.algorithm ∷ []
    else map string_of a.algorithms

abbrev pub config_of : Arguments → String → RunConfig
config_of a algorithm = record {
  algorithm_id = algorithm;
  problem_id = a.problem;
  seed = a.seed;
  physical_fes_budget = a.physical_fes;
  workers = a.workers;
  sugga_model_root = a.models_path;
}

module _ {W : Type 0} ⦃D : Double W⦄ (optimize : CaseData W → RunConfig → Result (RunResult W))
    (a : Arguments) where
  unfoldable pub run_case : String → CaseData W → Result (RunResult W)
  run_case algorithm farm = do
    result ← optimize farm (config_of a algorithm)
    validate_result result farm a.physical_fes a.workers
    ok result

  unfoldable pub run_cases : String → List (CaseData W) → Result (List (RunResult W))
  run_cases algorithm [] = ok []
  run_cases algorithm (farm ∷ cases) = do
    result ← run_case algorithm farm
    results ← run_cases algorithm cases
    ok (result ∷ results)

  unfoldable pub run_algorithms : List String → List (CaseData W) → Result (List (RunResult W))
  run_algorithms [] cases = ok []
  run_algorithms (algorithm ∷ algorithms) cases = do
    results ← run_cases algorithm cases
    more ← run_algorithms algorithms cases
    ok (results ++ more)

  -- `load_cases` or `load_case`, then the runs.
  unfoldable pub run :
      (String → Result (List (CaseData W)))
      → (String → String → Result (CaseData W))
      → Result (List (RunResult W))
  run load_cases load_case = do
    throw_if (a.algorithm ≗ "lse")
        (runtime_error "algorithm 'lse' was renamed to ISE; use --algorithm ise")
    cases ←
        (if a.all_cases
          then load_cases a.cases_path
          else load_case a.cases_path a.case_id >>= (λ farm. ok (farm ∷ [])))
    run_algorithms (chosen_algorithms a) cases

  -- The records, each on a line of its own.
  unfoldable pub lines_of : Stream W → List (RunResult W) → Text
  lines_of out [] = []
  lines_of out (result ∷ []) = to_json out result
  lines_of out (result ∷ next ∷ results) =
      to_json out result ++ (chars "\n" ++ lines_of out (next ∷ results))
