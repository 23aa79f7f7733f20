-- ===== src/Executor/Examples.antt =====
-- A run of an executor (hpc/fode_cpp/src/executor.cpp) of two threads, over the range from 0 to 1.
use fode_hpc_wflop.Base.{◌≤◌, ◌≡◌, refl, arith}
use fode_hpc_wflop.Executor.{
  Executor, Reach, begin, later, own, pick, notify, WorkerMove, CallerMove,
}
use fode_hpc_wflop.Executor.Once.{runs-returned, not-Reads-Writes, Reads, carrying-IsDue, IsDue}
use fode_hpc_wflop.Executor.Progress.{joining-Returns, Returns}
use fode_hpc_wflop.Executor.Bounds.{next-le}

abbrev Reached : Type 0
Reached = (s : Executor) × Reach 1 s

-- The worker has started, and the owner has published the call.
abbrev published : Reached
published = (
  _,
  later
      (later
        (later
          (later
            (later
              (later
                (later
                  (later (later begin (pick 0 (omega arith) WorkerMove.observe))
                    (pick 0 (omega arith) WorkerMove.start))
                  (own (CallerMove.built refl)))
                (own (CallerMove.call 0 1 (omega arith) (omega arith))))
              (own CallerMove.store_next))
            (own CallerMove.store_end))
          (own CallerMove.reset))
        (own CallerMove.publish))
      (notify refl),
)

-- The worker holds the index 0.
abbrev held : Reached
held = (
  _,
  later
      (later (later published.1 (pick 0 (omega arith) (WorkerMove.changed (omega arith))))
        (pick 0 (omega arith) (WorkerMove.enter refl)))
      (pick 0 (omega arith) WorkerMove.take),
)

-- The owner has found nothing left, while the worker still holds the index.
abbrev waited : Reached
waited = (_, later (later held.1 (own CallerMove.take)) (own (CallerMove.exhaust (omega arith))))

abbrev done : Reached
done = (
  _,
  later
      (later
        (later
          (later
            (later (later waited.1 (pick 0 (omega arith) (WorkerMove.run (omega arith))))
              (pick 0 (omega arith) WorkerMove.take))
            (pick 0 (omega arith) (WorkerMove.exhaust (omega arith))))
          (pick 0 (omega arith) WorkerMove.finish))
        (own (CallerMove.join refl)))
      (own CallerMove.clear),
)

-- The owner holds the index 0.
abbrev carried : Reached
carried = (_, later published.1 (own CallerMove.take))

runs-returned_example : done.0.shared.runs 0 ≡ 1
runs-returned_example = runs-returned 1 done.1 refl 0

not-Reads-Writes_example : ¬ Reads (done.0.worker 0)
not-Reads-Writes_example =
    not-Reads-Writes 1 (later done.1 (own CallerMove.return)) (omega arith) 0 (omega arith)

carrying-IsDue_example : IsDue carried.0.shared 0
carrying-IsDue_example = carrying-IsDue 1 0 carried.1 refl (omega arith)

joining-Returns_example : Returns 1 waited.0
joining-Returns_example = joining-Returns 1 waited.1 refl

next-le_example : waited.0.shared.next ≤ 3
next-le_example = next-le 1 waited.1 (omega arith)
