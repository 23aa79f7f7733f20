-- ===== src/Executor/Once.antt =====
-- What `parallel_for` of hpc/fode_cpp/src/executor.cpp promises: each index of the range once, by a
-- thread that holds it alone, and no worker in the way of the owner's writes.
use fode_hpc_wflop.Base.{ℕ, ◌≤◌, ◌<◌, ◌≡◌, ap, subst, true, ltb, leb, ◌&&◌, if◌then◌else◌, arith}
use fode_hpc_wflop.Executor.{Executor, Shared, Worker, Caller, Reach}
use fode_hpc_wflop.Executor.Family.{total, le-total}
use fode_hpc_wflop.Executor.Invariant.Defs.{
  holds, Builds, Rests, Ends, Quiet, Job, nothing, only, Facts,
}
use fode_hpc_wflop.Executor.Invariant.Reachable.{Invariant-Reach}

at : {n : ℕ} {s : Executor} (c : Caller) → Reach n s → s.caller ≡ c → Facts n s.shared c s.worker
at {n} {s} c r e = subst (λ d. Facts n s.shared d s.worker) e (Invariant-Reach n r)

-- Whatever the interleaving, when `parallel_for` returns, `task` has run exactly once for each
-- index from `begin` up to `end`, and for no other.
pub runs-returned :
    (n : ℕ) {s : Executor}
    → Reach n s
    → s.caller ≡ Caller.returned
    → (i : ℕ) → s.shared.runs i ≡ (if leb s.shared.first i && ltb i s.shared.limit then 1 else 0)
runs-returned n r e i = (at Caller.returned r e).1 i

-- The owner is about to write `task_` or `end_`, which are not atomic.
abbrev pub Writes : Caller → Type 0
Writes Caller.idle = 0 ≤ 0
Writes Caller.storing_end = 0 ≤ 0
Writes Caller.clearing = 0 ≤ 0
Writes _ = ⊥

-- A worker in the loop of `consume_current_job`, which reads both.
abbrev pub Reads : Worker → Type 0
Reads (Worker.consuming o) = 0 ≤ o
Reads (Worker.holding o i) = 0 ≤ o
Reads _ = ⊥

writing :
    (n : ℕ) (m : Shared) (c : Caller) (p : ℕ → Worker) → Writes c → Facts n m c p → Quiet n m p
writing n m Caller.constructing p h g = absurd h
writing n m Caller.idle p h g = g
writing n m Caller.storing_next p h g = absurd h
writing n m Caller.storing_end p h g = g.0.quiet
writing n m Caller.resetting p h g = absurd h
writing n m Caller.publishing p h g = absurd h
writing n m Caller.notifying p h g = absurd h
writing n m Caller.working p h g = absurd h
writing n m (Caller.carrying j) p h g = absurd h
writing n m Caller.joining p h g = absurd h
writing n m Caller.clearing p h g = g.0
writing n m (Caller.serial j) p h g = absurd h
writing n m Caller.returned p h g = absurd h
writing n m Caller.waking p h g = absurd h
writing n m Caller.rousing p h g = absurd h
writing n m Caller.ending p h g = absurd h
writing n m Caller.destroyed p h g = absurd h

reading : (e : ℕ) (q : Worker) → Rests e q → ¬ Reads q
reading e Worker.born h k = k
reading e (Worker.starting o) h k = k
reading e (Worker.waiting o s) h k = k
reading e (Worker.checking o s) h k = k
reading e (Worker.comparing o) h k = k
reading e (Worker.sleeping o) h k = k
reading e (Worker.woken o) h k = k
reading e (Worker.consuming o) h k = h
reading e (Worker.holding o i) h k = h
reading e (Worker.finishing o) h k = k
reading e Worker.gone h k = k

-- When the owner is about to write `task_` or `end_`, which are not atomic, no worker is in the
-- loop of `consume_current_job`, which reads them.
pub not-Reads-Writes :
    (n : ℕ) {s : Executor} → Reach n s → Writes s.caller → (w : ℕ) → w < n → ¬ Reads (s.worker w)
not-Reads-Writes n {s} r h w k =
    let q = writing n s.shared s.caller s.worker h (Invariant-Reach n r) in
    reading s.shared.epoch (s.worker w) (q.resting w k)

-- A worker that holds an index is in a call.
calling :
    (n : ℕ) (m : Shared) (c : Caller) (p : ℕ → Worker) (w : ℕ) {o i : ℕ}
    → w < n
    → p w ≡ Worker.holding o i
    → Facts n m c p
    → (f : ℕ → ℕ) × Job n m f p
calling n m Caller.constructing p w k e g = absurd (subst (Builds m.epoch) e (g.placed w k))
calling n m Caller.idle p w k e g = absurd (subst (Rests m.epoch) e (g.resting w k))
calling n m Caller.storing_next p w k e g = absurd (subst (Rests m.epoch) e (g.quiet.resting w k))
calling n m Caller.storing_end p w k e g = absurd (subst (Rests m.epoch) e (g.0.quiet.resting w k))
calling n m Caller.resetting p w k e g = absurd (subst (Rests m.epoch) e (g.0.quiet.resting w k))
calling n m Caller.publishing p w k e g = absurd (subst (Rests m.epoch) e (g.0.quiet.resting w k))
calling n m Caller.notifying p w k e g = (nothing, g)
calling n m Caller.working p w k e g = (nothing, g)
calling n m (Caller.carrying j) p w k e g = (only j, g.0)
calling n m Caller.joining p w k e g = (nothing, g.0)
calling n m Caller.clearing p w k e g = absurd (subst (Rests m.epoch) e (g.0.resting w k))
calling n m (Caller.serial j) p w k e g = absurd (subst (Rests m.epoch) e (g.0.resting w k))
calling n m Caller.returned p w k e g = absurd (subst (Rests m.epoch) e (g.0.resting w k))
calling n m Caller.waking p w k e g = absurd (subst Ends e (g.placed w k))
calling n m Caller.rousing p w k e g = absurd (subst Ends e (g.placed w k))
calling n m Caller.ending p w k e g = absurd (subst Ends e (g.placed w k))
calling n m Caller.destroyed p w k e g = absurd (subst Ends e (g.placed w k))

held : (o i : ℕ) → holds i (Worker.holding o i) ≡ 1
held o i = ground arith

-- What a thread runs.
abbrev pub IsDue : Shared → ℕ → Type 0
IsDue m i = (m.task ≡ true) × (m.first ≤ i) × (i < m.limit) × (m.runs i ≡ 0)

-- When a worker holds an index below `end_`, `task_` is set, the index lies in the range of the
-- present call, and nothing has run for it yet.
pub holding-IsDue :
    (n : ℕ) {s : Executor}
    → Reach n s
    → (w o i : ℕ) → w < n
    → s.worker w ≡ Worker.holding o i
    → i < s.shared.end_index
    → IsDue s.shared i
holding-IsDue n {s} r w o i k e h =
    let (f, j) = calling n s.shared s.caller s.worker w k e (Invariant-Reach n r) in
    let here : 1 ≤ total (holds i) n s.worker =
      omega (arith, le-total (holds i) n s.worker w k, ap (holds i) e, held o i) in
    let stored = j.end_stored in
    (j.armed, ground (arith, j.within i), omega arith, ground (arith, j.within i))

pub carrying-IsDue :
    (n : ℕ) {s : Executor} (i : ℕ)
    → Reach n s
    → s.caller ≡ Caller.carrying i
    → i < s.shared.end_index
    → IsDue s.shared i
carrying-IsDue n {s} i r e h =
    let j = (at (Caller.carrying i) r e).0 in
    let stored = j.end_stored in
    (j.armed, ground (arith, j.within i), omega arith, ground (arith, j.within i))
