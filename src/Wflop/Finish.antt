-- ===== src/Wflop/Finish.antt =====
-- `finish_result` of hpc/wflop_cpp/src/algorithms.cpp: the record of a finished run. The seconds are
-- the clock's; `std::toupper` is that of the C locale.
use Prim.Native.Char.{Char, code}
use fode_hpc_wflop.Base.{ℕ, ◌-◌, ◌&&◌, leb, if◌then◌else◌, get_or, map, ◌++◌, Result, ok, ◌>>=◌}
use fode_hpc_wflop.Text.{Text, chars}
use fode_hpc_wflop.Case.{CaseData}
use fode_hpc_wflop.Double.{Double, ◌⊖◌, nought, max_double}
use fode_hpc_wflop.Wflop.Registry.{algorithm_descriptor, problem_descriptor}
use fode_hpc_wflop.Wflop.Dispatch.{RunConfig}
use fode_hpc_wflop.Wflop.Runtime.{Runtime}
use fode_hpc_wflop.Wflop.Report.{RunResult}

unfoldable pub to_upper : Char → Char
to_upper c =
    if leb b'a' (code c) && leb (code c) b'z'
    then get_or (chars "ABCDEFGHIJKLMNOPQRSTUVWXYZ") (code c - b'a') c
    else c

-- `total` and `evaluator` are the seconds of the whole run and of its evaluations.
unfoldable pub finish_result :
    {W : Type 0} ⦃D : Double W⦄
    → CaseData W
    → RunConfig
    → Runtime W
    → (initial_population final_population : ℕ) → (total evaluator : W) → Text
    → Result (RunResult W)
finish_result farm config runtime initial_population final_population total evaluator semantics = do
  identity ← algorithm_descriptor config.algorithm_id
  problem ← problem_descriptor config.problem_id
  ok (record {
    algorithm_id = chars config.algorithm_id;
    method_id = map to_upper (chars config.algorithm_id) ++ chars "_CPP_HPC_FULL";
    algorithm_provenance = chars identity.provenance;
    effective_semantics_id = chars identity.semantics_id;
    problem_id = chars problem.id;
    problem_semantics_id = chars problem.semantics_id;
    case_id = chars farm.case_id;
    seed = config.seed;
    physical_fes = runtime.fes;
    generations = runtime.generations;
    initial_population = initial_population;
    final_population = final_population;
    requested_workers = config.workers;
    observed_workers = config.workers;
    best_expected_power_kw = runtime.best;
    best_layout_1based = runtime.best_layout;
    total_seconds = total;
    evaluator_seconds = evaluator;
    algorithm_seconds = max_double nought (total ⊖ evaluator);
    pso_update_semantics = semantics;
  })
