-- ===== src/Executor/Progress.antt =====
-- The wait at the end of `parallel_for` (hpc/fode_cpp/src/executor.cpp) can always come to its end.
use fode_hpc_wflop.Base.{
  ℕ, suc, zero, ◌+◌, ◌≤◌, ◌<◌, ◌≡◌, inl, inr, Bool-cases, refl, ap₂, subst, sym, false, ltb, ◌==◌,
  if◌then◌else◌, arith,
}
use fode_hpc_wflop.Executor.{
  Executor, Shared, Worker, Caller, Reach, later, Step, own, pick, WorkerMove, CallerMove, changed,
  spin, wait, pass, active_spin_count, enter, take, run, exhaust, finish, run_task, join, clear,
}
use fode_hpc_wflop.Executor.Family.{total, total-short, total-move, update}
use fode_hpc_wflop.Executor.Invariant.Defs.{done, Works, Job, Facts}
use fode_hpc_wflop.Executor.Invariant.Standing.{done-le}
use fode_hpc_wflop.Executor.Invariant.Reachable.{Invariant-Reach}
use fode_hpc_wflop.Executor.Awake.{SleepsAt, Awake-joining}

-- Some steps of the threads, one after another.
pub data Run (n : ℕ) : Executor → Executor → Type 0 where
  here : {s : Executor} → Run n s s
  next : {s t u : Executor} → Step n s t → Run n t u → Run n s u

-- How many steps a worker has yet to make, when no index below `limit` is left.
rank : ℕ → ℕ → Worker → ℕ
rank e limit (Worker.waiting o s) = if o == e then 0 else 5
rank e limit (Worker.comparing o) = if o == e then 0 else 6
rank e limit (Worker.checking o s) = if o == e then 0 else 7
rank e limit (Worker.woken c) = 4
rank e limit (Worker.consuming o) = 3
rank e limit (Worker.holding o i) = if ltb i limit then 4 else 2
rank e limit (Worker.finishing o) = 1
rank e limit _ = 0

abbrev Advance : Shared → Worker → Type 0
Advance m b =
    (m' : Shared) × (q : Worker) × WorkerMove m b m' q
    × (m'.epoch ≡ m.epoch)
    × (m'.limit ≡ m.limit)
    × (rank m.epoch m.limit q < rank m.epoch m.limit b)

module _ (n : ℕ) (m : Shared) {f : ℕ → ℕ} {p : ℕ → Worker} (j : Job n m f p)
    (past : m.limit ≤ m.next) where
  advance :
      (b : Worker) → Works m.epoch m.next b → SleepsAt m.epoch b → done m.epoch b ≡ 0 → Advance m b
  unfolding rank
  advance Worker.born h a z = absurd h
  advance (Worker.starting o) h a z = absurd h
  advance (Worker.waiting o s) h a z =
      (m, Worker.woken m.epoch, changed (λ k. ground (arith, k)), refl, refl, ground arith)
  advance (Worker.checking o s) h a z = elim (Bool-cases (ltb s active_spin_count)) [
    | inl few ↦
        (m, Worker.waiting o (s + 1), spin (ground arith) j.live.running, refl, refl, ground arith)
    | inr many ↦
        (m, Worker.comparing o, wait (ground arith) j.live.running, refl, refl, ground arith)
  ]
  advance (Worker.comparing o) h a z = (
    m,
    Worker.waiting o active_spin_count,
    pass (λ k. ground (arith, k)),
    refl,
    refl,
    ground arith,
  )
  advance (Worker.sleeping o) h a z = absurd (ground arith)
  advance (Worker.woken c) h a z =
      (m, Worker.consuming c, enter j.live.running, refl, refl, omega arith)
  advance (Worker.consuming o) h a z =
      (record m { next = m.next + 1 }, Worker.holding o m.next, take, refl, refl, ground arith)
  advance (Worker.holding o i) h a z = elim (Bool-cases (ltb i m.limit)) [
    | inl below ↦ (
      run_task m i,
      Worker.consuming o,
      run (ground (arith, j.end_stored)),
      refl,
      refl,
      ground arith,
    )
    | inr above ↦
        (m, Worker.finishing o, exhaust (ground (arith, j.end_stored)), refl, refl, ground arith)
  ]
  advance (Worker.finishing o) h a z = (
    record m { completed_workers = m.completed_workers + 1 },
    Worker.waiting o 0,
    finish,
    refl,
    refl,
    ground arith,
  )
  advance Worker.gone h a z = absurd h

at : {n : ℕ} {s : Executor} (c : Caller) → Reach n s → s.caller ≡ c → Facts n s.shared c s.worker
at {n} {s} c r e = subst (λ d. Facts n s.shared d s.worker) e (Invariant-Reach n r)

abbrev pub Returns : ℕ → Executor → Type 0
Returns n s = (t : Executor) × Run n s t × (t.caller ≡ Caller.returned)

-- The last steps of the call.
leave :
    (n : ℕ) {s : Executor}
    → s.caller ≡ Caller.joining
    → s.shared.completed_workers ≡ n
    → Returns n s
leave n {s} e full = (
  record s { shared = record s.shared { task = false }; caller = Caller.returned },
  next (own (subst (λ c. CallerMove n s.shared c s.shared Caller.clearing) (sym e) (join full)))
      (next (own clear) here),
  refl,
)

returns :
    (fuel n : ℕ) {s : Executor}
    → Reach n s
    → s.caller ≡ Caller.joining
    → total (rank s.shared.epoch s.shared.limit) n s.worker < fuel
    → Returns n s
returns zero n r e h = absurd (omega arith)
returns (suc fuel) n {s} r e h =
    let g = at Caller.joining r e in
    let m = s.shared in
    elim (Bool-cases (m.completed_workers == n)) [
      | inl full ↦ leave n e (ground arith)
      | inr short ↦
          let (w, k, z) =
            total-short (done m.epoch) n s.worker (done-le m.epoch) (ground (arith, g.0.counted)) in
          let (m', q, mv, epoch, limit, less) =
            advance n m g.0 g.1 (s.worker w) (g.0.placed w k) (Awake-joining r e w k) z in
          let st : Step n s (record s { shared = m'; worker = update s.worker w q }) =
            pick w k mv in
          let fewer = total-move (rank m.epoch m.limit) n s.worker w q k refl in
          let same = ap₂ (λ e l. total (rank e l) n (update s.worker w q)) epoch limit in
          let rest = returns fuel n (later r st) e (omega arith) in (rest.0, next st rest.1, rest.2)
    ]

-- In every state in which the owner waits for `completed_workers_`, whatever the threads have done
-- before, there are further steps after which `parallel_for` has returned: a worker that is blocked
-- in `epoch_.wait`, and that only a `notify_all` could wake, has no part of the call open.
pub joining-Returns : (n : ℕ) {s : Executor} → Reach n s → s.caller ≡ Caller.joining → Returns n s
joining-Returns n {s} r e =
    returns (suc (total (rank s.shared.epoch s.shared.limit) n s.worker)) n r e (omega arith)
