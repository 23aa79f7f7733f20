-- ===== src/Wflop/Examples.antt =====
-- The theorems of the dispatch at registered runs.
use fode_hpc_wflop.Base.{ℤ, pos, [], ◌∷◌, arith, true, ok, ◌≡◌, refl}
use fode_hpc_wflop.Double.Whole.{whole, whole-IsExact, whole-IsOrdered}
use fode_hpc_wflop.Fode.Fixture.{farm, farm-IsCase, layout_row, layout_row-IsLayoutRow}
use fode_hpc_wflop.Wflop.Runtime.{Runtime, evaluate}
use fode_hpc_wflop.Wflop.Runtime.Ledger.{Paid, evaluate-Paid}
use fode_hpc_wflop.Wflop.Registry.{
  algorithm_supports_problem, algorithm_descriptor, find_algorithm, algorithm_descriptors, found,
  is_listed, problem_descriptor, find_problem, problem_descriptors,
}
use fode_hpc_wflop.Wflop.Dispatch.{RunConfig, Call, refuse_by_name, call, optimize}
use fode_hpc_wflop.Wflop.Admitted.{Returns, optimize-Returns}

abbrev ppga_run : RunConfig
ppga_run = record {
  algorithm_id = "ppga";
  problem_id = "fode_e0_common";
  seed = 20260728;
  physical_fes_budget = 24000;
  workers = pos 20;
  sugga_model_root = "shared/models/sugga_cpp";
}

ppga_supported : algorithm_supports_problem "ppga" "fode_e0_common" ≡ ok true
unfolding algorithm_supports_problem algorithm_descriptor find_algorithm algorithm_descriptors found
    is_listed
ppga_supported = refl

ppga_called : optimize ppga_run ≡ ok Call.optimize_ppga
unfolding optimize refuse_by_name problem_descriptor find_problem problem_descriptors
    algorithm_supports_problem algorithm_descriptor find_algorithm algorithm_descriptors found
    is_listed call
ppga_called = refl

optimize-Returns_example : Returns (optimize ppga_run)
optimize-Returns_example = optimize-Returns ppga_run (omega arith) refl ppga_supported

abbrev nearly_spent : Runtime ℤ
nearly_spent = record {
  rng = record { seed = 42 };
  budget = 5;
  fes = 4;
  generations = 1;
  best = pos 7;
  best_layout = pos 1 ∷ pos 6 ∷ [];
}

evaluate-Paid_example :
    Paid nearly_spent 2 (evaluate farm nearly_spent (layout_row ∷ layout_row ∷ []) 2 true)
evaluate-Paid_example =
    evaluate-Paid whole-IsExact whole-IsOrdered farm farm-IsCase nearly_spent
      (layout_row ∷ layout_row ∷ []) 2 true (omega arith) (omega arith)
      (record { layouts = (layout_row-IsLayoutRow, (layout_row-IsLayoutRow, tt)); count = refl })
