-- ===== src/Executor/Invariant/Workers.antt =====
-- A step of a worker in any phase of the owner (hpc/fode_cpp/src/executor.cpp).
use fode_hpc_wflop.Base.{ℕ, ◌<◌, refl, subst, sym, arith}
use fode_hpc_wflop.Executor.{Shared, Worker, WorkerMove, Caller}
use fode_hpc_wflop.Executor.Family.{update, update-all}
use fode_hpc_wflop.Executor.Invariant.Defs.{
  Rests, Ends, Quiet, Fresh, Closing, nothing, only, Facts,
}
use fode_hpc_wflop.Executor.Invariant.Calls.{step, leaves}
use fode_hpc_wflop.Executor.Invariant.Phases.{build, rest, close}

module _ (n : ℕ) (m : Shared) (p : ℕ → Worker) (w : ℕ) (inside : w < n) {m' : Shared} {q : Worker}
    (mv : WorkerMove m (p w) m' q) where
  quiet : Quiet n m p → Rests m.epoch q → Quiet n m (update p w q)
  quiet g r = record { live = g.live; resting = update-all (Rests m.epoch) n p w q r g.resting }

  fresh : Fresh n m p → Quiet n m (update p w q) → Fresh n m (update p w q)
  fresh f g = record { quiet = g; armed = f.armed; positive = f.positive; unrun = f.unrun }

  -- Where every worker rests, what is known of the members stays.
  rested :
      (F : Shared → (ℕ → Worker) → Type 0)
      → Quiet n m p
      → (Quiet n m (update p w q) → F m (update p w q))
      → F m' (update p w q)
  rested F g f =
      let r = rest n m p w inside mv (g.resting w inside) g.live in
      subst (λ k. F k (update p w q)) (sym r.0) (f (quiet g r.1))

  closed : Closing n m p → Closing n m' (update p w q)
  closed g =
      let r = close n m p w inside mv (g.placed w inside) g.stopped in
      record { stopped = r.0; placed = update-all Ends n p w q r.1 g.placed }

  pub work : (c : Caller) → Facts n m c p → Facts n m' c (update p w q)
  work Caller.constructing g = build n m p w inside mv refl (g.placed w inside) g
  work Caller.idle g = rested (λ k r. Facts n k Caller.idle r) g (λ r. r)
  work Caller.storing_next g =
      rested (λ k r. Facts n k Caller.storing_next r) g.quiet (λ r. fresh g r)
  work Caller.storing_end g =
      rested (λ k r. Facts n k Caller.storing_end r) g.0.quiet (λ r. (fresh g.0 r, g.1))
  work Caller.resetting g =
      rested (λ k r. Facts n k Caller.resetting r) g.0.quiet (λ r. (fresh g.0 r, g.1, g.2))
  work Caller.publishing g =
      rested (λ k r. Facts n k Caller.publishing r) g.0.quiet (λ r. (fresh g.0 r, g.1, g.2, g.3))
  work Caller.notifying g = step n m nothing p w inside g mv
  work Caller.working g = step n m nothing p w inside g mv
  work (Caller.carrying j) g = (step n m (only j) p w inside g.0 mv, omega (arith, (leaves mv).0))
  work Caller.joining g =
      (step n m nothing p w inside g.0 mv, omega (arith, (leaves mv).0, (leaves mv).1))
  work Caller.clearing g = rested (λ k r. Facts n k Caller.clearing r) g.0 (λ r. (r, g.1))
  work (Caller.serial j) g =
      rested (λ k r. Facts n k (Caller.serial j) r) g.0 (λ r. (r, g.1, g.2, g.3))
  work Caller.returned g = rested (λ k r. Facts n k Caller.returned r) g.0 (λ r. (r, g.1))
  work Caller.waking g = closed g
  work Caller.rousing g = closed g
  work Caller.ending g = closed g
  work Caller.destroyed g = closed g
