-- ===== src/Wflop/Runtime.antt =====
-- `Runtime` and the first helpers of hpc/wflop_cpp/src/algorithms.cpp. The threads of the executor and
-- the clock are left out, not the check of their number; a text is the list of its bytes.
pub mod Ledger
use Prim.Native.Nat.{bit_xor}
use fode_hpc_wflop.Base.{
  leb, ◌==◌, if◌then◌else◌, set, take, replicate, ℤ, runtime_error, Result, ok, ◌>>=◌, ◌>>◌,
  throw_if, ℕ, ◌+◌, ◌-◌, ◌*◌, min, Bool, true, false, ◌||◌, List, [], ◌∷◌,
}
use fode_hpc_wflop.Case.{CaseData}
use fode_hpc_wflop.Double.{Double}
use fode_hpc_wflop.Rng.{u64, CounterRng}
use fode_hpc_wflop.Executor.{worker_count}
use fode_hpc_wflop.Farm.Evaluate.{evaluate_population_hpc}
use fode_hpc_wflop.Fode.Grid.{Matrix, grid_dimension, free_cells}
use fode_hpc_wflop.Fode.Accept.{Best, track_best}

-- The hash of an algorithm's identifier, from the value so far.
unfoldable pub salt_from : ℕ → List ℕ → ℕ
salt_from value [] = value
salt_from value (byte ∷ bytes) = salt_from (u64 (bit_xor value byte * 1099511628211)) bytes

unfoldable pub algorithm_salt : List ℕ → ℕ
algorithm_salt algorithm = salt_from 1469598103934665603 algorithm

-- The cells of an admitted case are on the grid.
unfoldable pub block_cells : List ℕ → List Bool → List Bool
block_cells [] blocked = blocked
block_cells (cell ∷ cells) blocked = block_cells cells (set blocked (cell - 1) true)

unfoldable pub blocked_mask : {W : Type 0} → CaseData W → List Bool
blocked_mask farm =
    block_cells farm.unavailable_cells_1based (replicate (grid_dimension farm) false)

unfoldable pub available_cells : {W : Type 0} → CaseData W → List ℕ
available_cells farm = free_cells 1 (blocked_mask farm)

pub record Runtime (W : Type 0) : Type 0 where
  pub rng : CounterRng
  pub budget : ℕ
  pub fes : ℕ
  pub generations : ℕ
  pub best : W
  pub best_layout : List ℤ

module _ {W : Type 0} ⦃D : Double W⦄ where
  -- What the constructor initializes beside the executor.
  abbrev pub fresh_runtime : List ℕ → ℕ → ℕ → Runtime W
  fresh_runtime algorithm_id seed physical_fes_budget = record {
    rng = record { seed = bit_xor seed (algorithm_salt algorithm_id) };
    budget = physical_fes_budget;
    fes = 0;
    generations = 0;
    best = D.minus_infinity;
    best_layout = [];
  }

  -- The constructor; that of its executor throws for fewer threads than one.
  unfoldable pub runtime : List ℕ → ℕ → ℕ → ℤ → Result (Runtime W)
  runtime algorithm_id seed physical_fes_budget workers = do
    threads ← worker_count workers
    ok (fresh_runtime algorithm_id seed physical_fes_budget)

  -- The runtime after a batch with these fitness values.
  abbrev pub spend : Runtime W → Matrix W → ℕ → List W → Bool → Runtime W
  spend r prefix completed fitness track =
      let found =
        track_best (record { best_fitness = r.best; best_layout = r.best_layout }) fitness prefix in
      record r {
        fes = r.fes + completed;
        best = if track then found.best_fitness else r.best;
        best_layout = if track then found.best_layout else r.best_layout;
      }

  -- `Runtime::evaluate`: what the budget leaves of the batch.
  unfoldable pub evaluate :
      CaseData W → Runtime W → Matrix W → ℕ → Bool → Result (List W × Runtime W)
  evaluate farm r population rows track = do
    throw_if (rows == 0 || leb r.budget r.fes)
        (runtime_error "invalid or exhausted evaluation batch")
    let completed = min rows (r.budget - r.fes)
    fitness ← evaluate_population_hpc farm (take completed population) completed
    ok (fitness, spend r (take completed population) completed fitness track)
