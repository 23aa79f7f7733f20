-- ===== src/Executor/Invariant/Calls.antt =====
-- A step of a worker in a published call (`worker_loop` and `consume_current_job` of
-- hpc/fode_cpp/src/executor.cpp).
use fode_hpc_wflop.Base.{ℕ, ◌+◌, ◌≤◌, ◌<◌, ◌≡◌, inl, refl, arith}
use fode_hpc_wflop.Executor.{
  Shared, Worker, active_spin_count, WorkerMove, observe, start, unchanged, changed, spin, wait,
  sleep, pass, notice, leave, enter, take, run, exhaust, finish, run_task,
}
use fode_hpc_wflop.Executor.Family.{total-move, update, update-all}
use fode_hpc_wflop.Executor.Invariant.Defs.{holds, done, Works, Job}

-- An index more that is taken stays where it was placed.
pub Works-take : (e next : ℕ) (q : Worker) → Works e next q → Works e (next + 1) q
Works-take e next Worker.born h = h
Works-take e next (Worker.starting o) h = h
Works-take e next (Worker.waiting o s) h = h
Works-take e next (Worker.checking o s) h = h
Works-take e next (Worker.comparing o) h = h
Works-take e next (Worker.sleeping o) h = h
Works-take e next (Worker.woken o) h = h
Works-take e next (Worker.consuming o) h = h
Works-take e next (Worker.holding o i) h = (h.0, omega arith)
Works-take e next (Worker.finishing o) h = h
Works-take e next Worker.gone h = h

module _ (n : ℕ) (m : Shared) (carried : ℕ → ℕ) (p : ℕ → Worker) (w : ℕ) (inside : w < n)
    (job : Job n m carried p) where
  -- A step that neither takes an index nor gives one back.
  still :
      (b q : Worker)
      → p w ≡ b
      → Works m.epoch m.next q
      → ((i : ℕ) → holds i q ≡ holds i b)
      → done m.epoch q ≡ done m.epoch b
      → Job n m carried (update p w q)
  still b q at place same finished = record {
    live = job.live;
    armed = job.armed;
    end_stored = job.end_stored;
    low = job.low;
    placed = update-all (Works m.epoch m.next) n p w q place job.placed;
    within = λ i h. omega (arith, job.within i h, total-move (holds i) n p w q inside at, same i);
    beyond = job.beyond;
    counted = omega (arith, job.counted, total-move (done m.epoch) n p w q inside at, finished);
  }

  taken :
      (o : ℕ)
      → p w ≡ Worker.consuming o
      → o ≡ m.epoch
      → Job n (record m { next = m.next + 1 }) carried (update p w (Worker.holding o m.next))
  taken o at e = record {
    live = record { running = job.live.running; small = job.live.small };
    armed = job.armed;
    end_stored = job.end_stored;
    low = omega (arith, job.low);
    placed =
        update-all (Works m.epoch (m.next + 1)) n p w (Worker.holding o m.next) (e, omega arith)
          (λ v k. Works-take m.epoch m.next (p v) (job.placed v k));
    within = λ i h. ground (
      arith,
      job.low,
      job.within i h,
      total-move (holds i) n p w (Worker.holding o m.next) inside at,
    );
    beyond = job.beyond;
    counted =
        omega
          (arith, job.counted, total-move (done m.epoch) n p w (Worker.holding o m.next) inside at);
  }

  ran :
      (o j : ℕ)
      → p w ≡ Worker.holding o j
      → o ≡ m.epoch
      → j < m.limit
      → Job n (run_task m j) carried (update p w (Worker.consuming o))
  ran o j at e h' = record {
    live = record { running = job.live.running; small = job.live.small };
    armed = job.armed;
    end_stored = job.end_stored;
    low = job.low;
    placed = update-all (Works m.epoch m.next) n p w (Worker.consuming o) e job.placed;
    within = λ i h.
        ground (arith, job.within i h, total-move (holds i) n p w (Worker.consuming o) inside at);
    beyond = λ i h. ground (arith, job.beyond i h);
    counted =
        omega (arith, job.counted, total-move (done m.epoch) n p w (Worker.consuming o) inside at);
  }

  exhausted :
      (o j : ℕ)
      → p w ≡ Worker.holding o j
      → o ≡ m.epoch
      → m.limit ≤ j
      → Job n m carried (update p w (Worker.finishing o))
  exhausted o j at e h' = record {
    live = job.live;
    armed = job.armed;
    end_stored = job.end_stored;
    low = job.low;
    placed = update-all (Works m.epoch m.next) n p w (Worker.finishing o) e job.placed;
    within = λ i h.
        ground (arith, job.within i h, total-move (holds i) n p w (Worker.finishing o) inside at);
    beyond = job.beyond;
    counted =
        omega (arith, job.counted, total-move (done m.epoch) n p w (Worker.finishing o) inside at);
  }

  finished :
      (o : ℕ)
      → p w ≡ Worker.finishing o
      → o ≡ m.epoch
      → Job n
          (record m { completed_workers = m.completed_workers + 1 })
          carried
          (update p w (Worker.waiting o 0))
  finished o at e = record {
    live = record { running = job.live.running; small = job.live.small };
    armed = job.armed;
    end_stored = job.end_stored;
    low = job.low;
    placed = update-all (Works m.epoch m.next) n p w (Worker.waiting o 0) (inl e) job.placed;
    within = λ i h.
        omega (arith, job.within i h, total-move (holds i) n p w (Worker.waiting o 0) inside at);
    beyond = job.beyond;
    counted =
        ground (arith, job.counted, total-move (done m.epoch) n p w (Worker.waiting o 0) inside at);
  }

  -- Each step of a worker in a call.
  pub move :
      {m' : Shared} {b q : Worker}
      → WorkerMove m b m' q
      → p w ≡ b
      → Works m.epoch m.next b
      → Job n m' carried (update p w q)
  move observe at h = absurd h
  move start at h = absurd h
  move (unchanged {o} {s} e) at h =
      still (Worker.waiting o s) (Worker.checking o s) at h (λ i. refl) refl
  move (changed {o} {s} e) at h =
      still (Worker.waiting o s) (Worker.woken m.epoch) at refl (λ i. refl) (ground arith)
  move (spin {o} {s} few e) at h =
      still (Worker.checking o s) (Worker.waiting o (s + 1)) at h (λ i. refl) refl
  move (wait {o} {s} many e) at h =
      still (Worker.checking o s) (Worker.comparing o) at h (λ i. refl) refl
  move (sleep {o} e) at h = still (Worker.comparing o) (Worker.sleeping o) at h (λ i. refl) refl
  move (pass {o} e) at h =
      still (Worker.comparing o) (Worker.waiting o active_spin_count) at h (λ i. refl) refl
  move (notice e) at h = cc job.live.running
  move (leave e) at h = cc job.live.running
  move (enter {c} e) at h = still (Worker.woken c) (Worker.consuming c) at h (λ i. refl) refl
  move (take {o}) at h = taken o at h
  move (run {o} {i} e) at h = ran o i at h.0 (omega (arith, job.end_stored))
  move (exhaust {o} {i} e) at h = exhausted o i at h.0 (omega (arith, job.end_stored))
  move (finish {o}) at h = finished o at h

  pub step : {m' : Shared} {q : Worker} → WorkerMove m (p w) m' q → Job n m' carried (update p w q)
  step mv = move mv refl (job.placed w inside)

-- What a worker leaves alone.
pub leaves :
    {m m' : Shared} {b q : Worker} → WorkerMove m b m' q → (m.next ≤ m'.next) × (m'.limit ≡ m.limit)
leaves observe = omega arith
leaves start = omega arith
leaves (unchanged e) = omega arith
leaves (changed e) = omega arith
leaves (spin few e) = omega arith
leaves (wait many e) = omega arith
leaves (sleep e) = omega arith
leaves (pass e) = omega arith
leaves (notice e) = omega arith
leaves (leave e) = omega arith
leaves (enter e) = omega arith
leaves take = omega arith
leaves (run e) = omega arith
leaves (exhaust e) = omega arith
leaves finish = omega arith
