-- ===== src/Wflop/Validate.antt =====
-- `convert_fode` of hpc/wflop_cpp/src/algorithms.cpp and `validate_result` of
-- hpc/wflop_cpp/src/main.cpp. The seconds are the clock's, and a parameter.
pub mod Fode
mod Examples
use Prim.Native.Char.{code}
use Prim.Native.String.{◌++◌ as ◌<>◌}
use fode_hpc_wflop.Base.{
  ℕ, ◌-◌, ℤ, pos, pos_part, ltb_ℤ, eqb_ℤ, Bool, true, false, not, ◌&&◌, ◌||◌, ◌==◌, if◌then◌else◌,
  List, [], ◌∷◌, length, get_or, is_empty, Result, ok, err, runtime_error, Error, String, ◌>>=◌,
  ◌>>◌, throw_if,
}
use fode_hpc_wflop.Case.{CaseData}
use fode_hpc_wflop.Double.{Double, nought}
use fode_hpc_wflop.Text.{Text, chars, string_of}
use fode_hpc_wflop.Rng.Generator.{Generator}
use fode_hpc_wflop.Fode.Grid.{grid_dimension}
use fode_hpc_wflop.Fode.Optimize.{optimize_fode_hpc}
use fode_hpc_wflop.Wflop.Registry.{algorithm_descriptor, problem_descriptor}
use fode_hpc_wflop.Wflop.Dispatch.{RunConfig}
use fode_hpc_wflop.Wflop.Runtime.{blocked_mask}
use fode_hpc_wflop.Wflop.Report.{RunResult}

pub record Seconds (W : Type 0) : Type 0 where
  pub total : W
  pub evaluator : W
  pub algorithm : W

-- `cell <= previous || cell < 1 || cell > rows * cols || unavailable[cell - 1] != 0`, for some cell
unfoldable pub infeasible : ℕ → List Bool → ℤ → List ℤ → Bool
infeasible grid unavailable previous [] = false
infeasible grid unavailable previous (cell ∷ cells) =
    not (ltb_ℤ previous cell)
    || ltb_ℤ cell (pos 1)
    || ltb_ℤ (pos grid) cell
    || get_or unavailable (pos_part cell - 1) false
    || infeasible grid unavailable cell cells

abbrev pub text_eq : Text → Text → Bool
text_eq [] [] = true
text_eq (c ∷ s) (d ∷ t) = code c == code d && text_eq s t
text_eq _ _ = false

module _ {W : Type 0} ⦃D : Double W⦄ where
  abbrev pub bad_numbers : RunResult W → Bool
  bad_numbers r =
      not (D.is_finite r.best_expected_power_kw)
      || D.le r.best_expected_power_kw nought
      || not (D.is_finite r.total_seconds)
      || not (D.is_finite r.evaluator_seconds)
      || not (D.is_finite r.algorithm_seconds)
      || D.lt r.total_seconds nought
      || D.lt r.evaluator_seconds nought
      || D.lt r.algorithm_seconds nought

  abbrev pub bad_state : RunResult W → CaseData W → Bool
  bad_state r farm =
      is_empty r.best_layout_1based
      || is_empty r.algorithm_provenance
      || is_empty r.effective_semantics_id
      || is_empty r.problem_id
      || is_empty r.problem_semantics_id
      || not (length r.best_layout_1based == farm.turbine_count)
      || bad_numbers r

  abbrev pub failure : RunResult W → String → Error
  failure r text = runtime_error (string_of r.algorithm_id <> text)

  unfoldable pub validate_result : RunResult W → CaseData W → ℕ → ℤ → Result (Unit {0})
  unfolding infeasible
  validate_result r farm expected_fes expected_workers = do
    throw_if (not (r.physical_fes == expected_fes))
        (failure r " did not stop at the exact physical FES")
    throw_if (not (eqb_ℤ r.observed_workers expected_workers))
        (failure r " did not use the requested persistent team")
    throw_if (bad_state r farm) (failure r " returned an invalid best state")
    throw_if (infeasible (grid_dimension farm) (blocked_mask farm) (pos 0) r.best_layout_1based)
        (failure r " returned an infeasible layout")
    throw_if
        ((text_eq r.algorithm_id (chars "agpso") || text_eq r.algorithm_id (chars "cgpso"))
          && not (text_eq r.pso_update_semantics (chars "paper_staged_parallel")))
        (failure r " returned an unregistered PSO semantics")
    throw_if
        (text_eq r.algorithm_id (chars "hgpso")
          && not (text_eq r.pso_update_semantics (chars "paper_hierarchical_staged_parallel")))
        (runtime_error "hgpso returned an unregistered hierarchical PSO semantics")

  unfoldable pub convert_fode :
      Generator → ℕ → CaseData W → RunConfig → Seconds W → Result (RunResult W)
  convert_fode rng rounds farm config seconds = do
    source ← optimize_fode_hpc rng rounds farm (record {
      seed = config.seed;
      physical_fes_budget = config.physical_fes_budget;
      workers = config.workers;
    })
    identity ← algorithm_descriptor "fode"
    problem ← problem_descriptor config.problem_id
    ok (record {
      algorithm_id = chars "fode";
      method_id = chars "FODE_CPP_HPC_FULL";
      algorithm_provenance = chars identity.provenance;
      effective_semantics_id = chars identity.semantics_id;
      problem_id = chars problem.id;
      problem_semantics_id = chars problem.semantics_id;
      case_id = chars source.case_id;
      seed = source.seed;
      physical_fes = source.physical_fes;
      generations = source.generations;
      initial_population = source.initial_population;
      final_population = source.final_population;
      requested_workers = source.requested_workers;
      observed_workers = source.observed_workers;
      best_expected_power_kw = source.best_expected_power_kw;
      best_layout_1based = source.best_layout_1based;
      total_seconds = seconds.total;
      evaluator_seconds = seconds.evaluator;
      algorithm_seconds = seconds.algorithm;
      pso_update_semantics = [];
    })
