-- ===== src/Wflop/Run/Examples.antt =====
-- A run of two algorithms on the small case, with an optimizer that always finds the same layout.
use fode_hpc_wflop.Base.{ℤ, pos, [], ◌∷◌, ◌≡◌, refl, Result, ok}
use fode_hpc_wflop.Case.{CaseData}
use fode_hpc_wflop.Double.Whole.{whole}
use fode_hpc_wflop.Text.{chars}
use fode_hpc_wflop.Fode.Fixture.{farm}
use fode_hpc_wflop.Wflop.Dispatch.{RunConfig}
use fode_hpc_wflop.Wflop.Runtime.{blocked_mask, block_cells}
use fode_hpc_wflop.Wflop.Arguments.{defaults}
use fode_hpc_wflop.Wflop.Report.{RunResult}
use fode_hpc_wflop.Wflop.Validate.{validate_result}
use fode_hpc_wflop.Wflop.Run.{run_algorithms, run_cases, run_case}

abbrev found : RunResult ℤ
found = record {
  algorithm_id = chars "fode";
  method_id = chars "m";
  algorithm_provenance = chars "p";
  effective_semantics_id = chars "e";
  problem_id = chars "f";
  problem_semantics_id = chars "s";
  case_id = chars "small";
  seed = 20260728;
  physical_fes = 24000;
  generations = 1;
  initial_population = 3;
  final_population = 3;
  requested_workers = pos 20;
  observed_workers = pos 20;
  best_expected_power_kw = pos 4;
  best_layout_1based = pos 1 ∷ pos 3 ∷ [];
  total_seconds = pos 3;
  evaluator_seconds = pos 2;
  algorithm_seconds = pos 1;
  pso_update_semantics = [];
}

optimizer : CaseData ℤ → RunConfig → Result (RunResult ℤ)
optimizer _ _ = ok found

finished :
    run_algorithms optimizer defaults ("aga" ∷ "fode" ∷ []) (farm ∷ []) ≡ ok (found ∷ found ∷ [])
unfolding run_algorithms run_cases run_case optimizer validate_result blocked_mask block_cells
finished = refl
