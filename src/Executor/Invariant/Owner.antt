-- ===== src/Executor/Invariant/Owner.antt =====
-- A step of the owner (the constructor, `parallel_for` and the destructor of
-- hpc/fode_cpp/src/executor.cpp).
use fode_hpc_wflop.Base.{ℕ, ◌+◌, ◌≤◌, ◌<◌, ◌≡◌, refl, subst, sym, ap, ◌∙◌, arith}
use fode_hpc_wflop.Rng.{u64}
use fode_hpc_wflop.Executor.{
  Shared, Worker, run_task, Caller, CallerMove, built, call_none, call_empty, call, call_serial,
  store_next, store_end, reset, publish, take, run, exhaust, spin, join, clear, run_serial,
  leave_serial, return, stop, wake,
}
use fode_hpc_wflop.Executor.Family.{total, total-full, total-zero}
use fode_hpc_wflop.Executor.Invariant.Defs.{
  holds, done, ready, Rests, Job, Quiet, Fresh, Building, nothing, only, Covered, Facts,
}
use fode_hpc_wflop.Executor.Invariant.Standing.{
  ready-le, done-le, Rests-Builds, Rests-done, holds-Rests, done-publish, Works-publish, Ends-stop,
}
use fode_hpc_wflop.Executor.Invariant.Calls.{Works-take}

module _ (n : ℕ) (m : Shared) (p : ℕ → Worker) where
  settled_start : Building n m p → m.started_workers ≡ n → Quiet n m p
  settled_start g full = record {
    live = g.live;
    resting = λ w k.
        Rests-Builds m.epoch (p w) (g.placed w k)
          (total-full ready n p ready-le (sym g.counted ∙ full) w k);
  }

  pub idle_total : Quiet n m p → (i : ℕ) → total (holds i) n p ≡ 0
  idle_total g i = total-zero (holds i) n p (λ w k. holds-Rests m.epoch i (p w) (g.resting w k))

  published :
      Fresh n m p
      → m.next ≡ m.first
      → m.end_index ≡ m.limit
      → m.completed_workers ≡ 0
      → Job n (record m { epoch = u64 (m.epoch + 1) }) nothing p
  published f at end none = record {
    live = record { running = f.quiet.live.running; small = omega arith };
    armed = f.armed;
    end_stored = end;
    low = omega arith;
    placed = λ w k. Works-publish m.epoch f.quiet.live.small m.next (p w) (f.quiet.resting w k);
    within = λ i h. ground (arith, f.unrun i, idle_total f.quiet i);
    beyond = λ i h. f.unrun i;
    counted = omega (
      arith,
      total-zero (done (u64 (m.epoch + 1))) n p
          (λ w k. done-publish m.epoch f.quiet.live.small (p w) (f.quiet.resting w k)),
    );
  }

  taken : Job n m nothing p → Job n (record m { next = m.next + 1 }) (only m.next) p
  taken j = record {
    live = record { running = j.live.running; small = j.live.small };
    armed = j.armed;
    end_stored = j.end_stored;
    low = omega (arith, j.low);
    placed = λ w k. Works-take m.epoch m.next (p w) (j.placed w k);
    within = λ i h. ground (arith, j.low, j.within i h);
    beyond = j.beyond;
    counted = j.counted;
  }

  ran : (i : ℕ) → Job n m (only i) p → i < m.limit → Job n (run_task m i) nothing p
  ran i j h = record {
    live = record { running = j.live.running; small = j.live.small };
    armed = j.armed;
    end_stored = j.end_stored;
    low = j.low;
    placed = j.placed;
    within = λ x k. ground (arith, j.within x k);
    beyond = λ x k. ground (arith, j.beyond x k);
    counted = j.counted;
  }

  exhausted : (i : ℕ) → Job n m (only i) p → m.limit ≤ i → Job n m nothing p
  exhausted i j h = record {
    live = j.live;
    armed = j.armed;
    end_stored = j.end_stored;
    low = j.low;
    placed = j.placed;
    within = λ x k. ground (arith, j.within x k);
    beyond = j.beyond;
    counted = j.counted;
  }

  settled : Job n m nothing p → m.completed_workers ≡ n → Quiet n m p
  settled j full = record {
    live = j.live;
    resting = λ w k.
        Rests-done m.epoch (p w)
          (total-full (done m.epoch) n p (done-le m.epoch) (sym j.counted ∙ full) w k);
  }

  covered : Job n m nothing p → m.limit ≤ m.next → Quiet n m p → Covered m m.limit
  covered j past g i = ground (arith, j.within i, j.beyond i, idle_total g i)

  requiet :
      {m' : Shared} → m'.epoch ≡ m.epoch → m'.stopping ≡ m.stopping → Quiet n m p → Quiet n m' p
  requiet {m'} same up g = record {
    live = record { running = up ∙ g.live.running; small = omega (arith, g.live.small) };
    resting = λ w k. subst (λ e. Rests e (p w)) (sym same) (g.resting w k);
  }

  refresh :
      {m' : Shared}
      → m'.epoch ≡ m.epoch
      → m'.stopping ≡ m.stopping
      → m'.task ≡ m.task
      → m'.first ≡ m.first
      → m'.limit ≡ m.limit
      → m'.runs ≡ m.runs
      → Fresh n m p
      → Fresh n m' p
  refresh same up armed first limit runs f = record {
    quiet = requiet same up f.quiet;
    armed = armed ∙ f.armed;
    positive = omega (arith, f.positive);
    unrun = λ i. ap (λ (g : ℕ → ℕ). g i) runs ∙ f.unrun i;
  }

  pub own : {c d : Caller} {m' : Shared} → CallerMove n m c m' d → Facts n m c p → Facts n m' d p
  own (built e) g = settled_start g e
  own (call_none b e h) g = g
  own (call_empty b e h) g = g
  own (call b e h k) g = record {
    quiet = requiet refl refl g;
    armed = refl;
    positive = h;
    unrun = λ i. refl;
  }
  own (call_serial b e h k) g = (requiet refl refl g, λ i. ground arith, omega arith, omega arith)
  own store_next g = (refresh refl refl refl refl refl refl g, refl)
  own store_end g = (refresh refl refl refl refl refl refl g.0, g.1, refl)
  own reset g = (refresh refl refl refl refl refl refl g.0, g.1, g.2, refl)
  own publish g = published g.0 g.1 g.2 g.3
  own take g = (taken g, omega arith)
  own (run {i} h) g = ran i g.0 (omega (arith, g.0.end_stored))
  own (exhaust {i} h) g =
      (exhausted i g.0 (omega (arith, g.0.end_stored)), omega (arith, g.0.end_stored))
  own (spin h) g = g
  own (join e) g = let q = settled g.0 e in (q, covered g.0 g.1 q)
  own clear g = (requiet refl refl g.0, g.1)
  own (run_serial {i} h) g =
      (requiet refl refl g.0, λ x. ground (arith, g.1 x, g.2, g.3), omega arith, omega arith)
  own (leave_serial {i} h) g = (g.0, λ x. ground (arith, g.1 x, g.3))
  own return g = g.0
  own stop g = record { stopped = refl; placed = λ w k. Ends-stop m.epoch (p w) (g.resting w k) }
  own wake g = record { stopped = g.stopped; placed = g.placed }
