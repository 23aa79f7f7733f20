-- ===== src/Executor/Invariant/Phases.antt =====
-- A step of a worker outside a call, and a step of the owner
-- (hpc/fode_cpp/src/executor.cpp).
use fode_hpc_wflop.Base.{ℕ, ◌+◌, ◌<◌, ◌≡◌, refl, true, arith}
use fode_hpc_wflop.Executor.{
  Shared, Worker, WorkerMove, observe, start, unchanged, changed, spin, wait, sleep, pass, notice,
  leave, enter, take, run, exhaust, finish,
}
use fode_hpc_wflop.Executor.Family.{total-move, update, update-all}
use fode_hpc_wflop.Executor.Invariant.Defs.{ready, Builds, Rests, Ends, Live, Building}

module _ (n : ℕ) (m : Shared) (p : ℕ → Worker) (w : ℕ) (inside : w < n) where
  built :
      Building n m p
      → (b q : Worker) → p w ≡ b
      → Builds m.epoch q
      → ready q ≡ ready b
      → Building n m (update p w q)
  built g b q at place same = record {
    live = g.live;
    placed = update-all (Builds m.epoch) n p w q place g.placed;
    counted = omega (arith, g.counted, total-move ready n p w q inside at, same);
  }

  started :
      Building n m p
      → (o : ℕ) → p w ≡ Worker.starting o
      → o ≡ m.epoch
      → Building n
          (record m { started_workers = m.started_workers + 1 })
          (update p w (Worker.waiting o 0))
  started g o at e = record {
    live = record { running = g.live.running; small = g.live.small };
    placed = update-all (Builds m.epoch) n p w (Worker.waiting o 0) e g.placed;
    counted = omega (arith, g.counted, total-move ready n p w (Worker.waiting o 0) inside at);
  }

  pub build :
      {m' : Shared} {b q : Worker}
      → WorkerMove m b m' q
      → p w ≡ b
      → Builds m.epoch b
      → Building n m p
      → Building n m' (update p w q)
  build observe at h g = built g Worker.born (Worker.starting m.epoch) at refl refl
  build (start {o}) at h g = started g o at h
  build (unchanged {o} {s} e) at h g = built g (Worker.waiting o s) (Worker.checking o s) at h refl
  build (changed {o} {s} e) at h g = absurd (omega arith)
  build (spin {o} {s} few e) at h g =
      built g (Worker.checking o s) (Worker.waiting o (s + 1)) at h refl
  build (wait {o} {s} many e) at h g = built g (Worker.checking o s) (Worker.comparing o) at h refl
  build (sleep {o} e) at h g = built g (Worker.comparing o) (Worker.sleeping o) at h refl
  build (pass {o} e) at h g = absurd (omega arith)
  build (notice e) at h g = cc g.live.running
  build (leave e) at h g = absurd h
  build (enter e) at h g = absurd h
  build take at h g = absurd h
  build (run e) at h g = absurd h
  build (exhaust e) at h g = absurd h
  build finish at h g = absurd h

  -- Between two calls no worker writes to a member.
  pub rest :
      {m' : Shared} {b q : Worker}
      → WorkerMove m b m' q
      → Rests m.epoch b
      → Live m
      → (m' ≡ m) × Rests m.epoch q
  rest observe h g = absurd h
  rest start h g = absurd h
  rest (unchanged e) h g = (refl, h)
  rest (changed e) h g = absurd (omega arith)
  rest (spin few e) h g = (refl, h)
  rest (wait many e) h g = (refl, h)
  rest (sleep e) h g = (refl, h)
  rest (pass e) h g = absurd (omega arith)
  rest (notice e) h g = cc g.running
  rest (leave e) h g = absurd h
  rest (enter e) h g = absurd h
  rest take h g = absurd h
  rest (run e) h g = absurd h
  rest (exhaust e) h g = absurd h
  rest finish h g = absurd h

  pub close :
      {m' : Shared} {b q : Worker}
      → WorkerMove m b m' q
      → Ends b
      → m.stopping ≡ true
      → (m'.stopping ≡ true) × Ends q
  close observe h g = absurd h
  close start h g = absurd h
  close (unchanged e) h g = (g, omega arith)
  close (changed e) h g = (g, omega arith)
  close (spin few e) h g = cc
  close (wait many e) h g = cc
  close (sleep e) h g = (g, omega arith)
  close (pass e) h g = (g, omega arith)
  close (notice e) h g = (g, omega arith)
  close (leave e) h g = (g, omega arith)
  close (enter e) h g = cc
  close take h g = absurd h
  close (run e) h g = absurd h
  close (exhaust e) h g = absurd h
  close finish h g = absurd h
