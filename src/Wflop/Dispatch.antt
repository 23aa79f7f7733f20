-- ===== src/Wflop/Dispatch.antt =====
-- `optimize` of hpc/wflop_cpp/src/algorithms.cpp: the refusals, in order, then the call.
use Prim.Native.String.{◌++◌ as ◌<>◌}
use text.Mathlib.Text.{◌==◌ as ◌≗◌}
use fode_hpc_wflop.Base.{
  ℕ, ℤ, pos, ltb_ℤ, String, Bool, true, false, not, ◌==◌, ◌||◌, if◌then◌else◌, Result, ok, err,
  invalid_argument, throw_if, ◌>>=◌, ◌>>◌,
}
use fode_hpc_wflop.Wflop.Registry.{problem_descriptor, algorithm_supports_problem}

pub record RunConfig : Type 0 where
  pub algorithm_id : String
  pub problem_id : String
  pub seed : ℕ
  pub physical_fes_budget : ℕ
  pub workers : ℤ
  pub sugga_model_root : String

-- The optimizer that `optimize` calls, with the flags that it passes.
pub data Call : Type 0 where
  convert_fode : Call
  optimize_ga : Bool → Call
  optimize_ise : Call
  optimize_pso : Bool → Call
  optimize_lshade : Bool → Bool → Call
  optimize_cede : Call
  optimize_msshade : Call
  optimize_bde : Call
  optimize_hgpso : Call
  optimize_aiga : Call
  optimize_ciga : Call
  optimize_lsde : Call
  optimize_wfadde : Call
  optimize_ppga : Call

-- The identifiers that are refused by name, with the text of the exception.
unfoldable pub refuse_by_name : String → Result (Unit {0})
refuse_by_name id = do
  throw_if (id ≗ "lse") (invalid_argument "algorithm 'lse' was renamed to ISE; use --algorithm ise")
  throw_if (id ≗ "alga") (
      invalid_argument
        "algorithm 'alga' is intentionally blocked at R1/R2: the Guishan case arrays and attention training target, loss, optimizer, architecture, mask, and learned state are not public")
  throw_if (id ≗ "taae") (
      invalid_argument
        "algorithm 'taae' is intentionally blocked at R1/R2: the Zhangbei case arrays, pretraining corpus and seed, complete loss weights, and Transformer checkpoint are not public")
  throw_if (id ≗ "rlpso") (
      invalid_argument
        "algorithm 'rlpso' is intentionally blocked at R2: the official source creates a fresh unseeded PPO policy on every outer iteration, executes up to 10000 hidden physical evaluations per call, and its update conflicts with the paper PPO equation")
  throw_if (id ≗ "rlfode") (
      invalid_argument
        "algorithm 'rlfode' is intentionally blocked at R2: the author source and pretrained Q-tables are unavailable")
  ok tt

-- The chain of tests at the end.
unfoldable pub call : String → Result Call
call id =
    if id ≗ "fode"
    then ok convert_fode
    else if id ≗ "aga"
    then ok (optimize_ga false)
    else if id ≗ "sugga"
    then ok (optimize_ga true)
    else if id ≗ "ise"
    then ok optimize_ise
    else if id ≗ "agpso"
    then ok (optimize_pso false)
    else if id ≗ "cgpso"
    then ok (optimize_pso true)
    else if id ≗ "lshade"
    then ok (optimize_lshade false false)
    else if id ≗ "clshade"
    then ok (optimize_lshade true false)
    else if id ≗ "cede"
    then ok optimize_cede
    else if id ≗ "msshade"
    then ok optimize_msshade
    else if id ≗ "bde"
    then ok optimize_bde
    else if id ≗ "hgpso"
    then ok optimize_hgpso
    else if id ≗ "aiga"
    then ok optimize_aiga
    else if id ≗ "ciga"
    then ok optimize_ciga
    else if id ≗ "lsde"
    then ok optimize_lsde
    else if id ≗ "wfadde"
    then ok optimize_wfadde
    else if id ≗ "alshade"
    then ok (optimize_lshade false true)
    else if id ≗ "ppga"
    then ok optimize_ppga
    else err (invalid_argument ("unknown algorithm: " <> id))

unfoldable pub optimize : RunConfig → Result Call
optimize config = do
  throw_if (config.physical_fes_budget == 0 || ltb_ℤ config.workers (pos 1))
      (invalid_argument "budget and worker count must be positive")
  refuse_by_name config.algorithm_id
  problem ← problem_descriptor config.problem_id
  supported ← algorithm_supports_problem config.algorithm_id config.problem_id
  throw_if (not supported) (
      invalid_argument (
        "algorithm '"
        <> (config.algorithm_id
            <> ("' is not admitted for problem '" <> (config.problem_id <> "'")))))
  call config.algorithm_id
