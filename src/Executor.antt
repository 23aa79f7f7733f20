-- ===== src/Executor.antt =====
-- hpc/fode_cpp/src/executor.cpp: the caller and the worker threads of a `PersistentExecutor`, a shared
-- access at a time, interleaved in any order. `total_threads` is the number of workers and one.
-- `epoch_.wait` compares and falls asleep in one step; a worker that sleeps moves no more until a
-- `notify_all` wakes it, and then compares again; one that wakes by itself is one that has not yet
-- fallen asleep. `next_` does not wrap here; Executor/Bounds.antt says how far it comes.
pub mod Family
pub mod Invariant
pub mod Once
pub mod Awake
pub mod Progress
pub mod Bounds
mod Examples
use fode_hpc_wflop.Base.{
  ℕ, ◌+◌, ◌≤◌, ◌<◌, ◌≡◌, ◌≢◌, Bool, true, false, ◌==◌, if◌then◌else◌, ◌-◌, ℤ, pos, pos_part, ltb_ℤ,
  Result, ok, err, invalid_argument,
}
use fode_hpc_wflop.Rng.{u64}
use fode_hpc_wflop.Executor.Family.{update}

-- The members that the threads share. `runs`, `first` and `limit` record what the current call has
-- run and the range that it was given; no thread reads them.
pub record Shared : Type 0 where
  pub next : ℕ
  pub end_index : ℕ
  pub task : Bool
  pub completed_workers : ℕ
  pub started_workers : ℕ
  pub epoch : ℕ
  pub stopping : Bool
  pub runs : ℕ → ℕ
  pub first : ℕ
  pub limit : ℕ

-- Where a worker stands, with the locals that are live there.
pub data Worker : Type 0 where
  born : Worker  -- start of `worker_loop`
  starting : (observed : ℕ) → Worker
  waiting : (observed spins : ℕ) → Worker  -- before a load of `epoch_`
  checking : (observed spins : ℕ) → Worker  -- the epoch is the observed one: before `stopping_` is read
  comparing : (observed : ℕ) → Worker  -- in `epoch_.wait`, before its comparison
  sleeping : (observed : ℕ) → Worker  -- blocked in `epoch_.wait`
  woken : (current : ℕ) → Worker  -- behind the inner loop
  consuming : (observed : ℕ) → Worker  -- head of the loop in `consume_current_job`
  holding : (observed index : ℕ) → Worker
  finishing : (observed : ℕ) → Worker
  gone : Worker

-- `kActiveSpinCount`
abbrev pub active_spin_count : ℕ
active_spin_count = 4096

-- What `epoch_.notify_all()` does to a worker.
abbrev pub rouse : Worker → Worker
rouse Worker.born = Worker.born
rouse (Worker.starting o) = Worker.starting o
rouse (Worker.waiting o s) = Worker.waiting o s
rouse (Worker.checking o s) = Worker.checking o s
rouse (Worker.comparing o) = Worker.comparing o
rouse (Worker.sleeping o) = Worker.comparing o
rouse (Worker.woken c) = Worker.woken c
rouse (Worker.consuming o) = Worker.consuming o
rouse (Worker.holding o i) = Worker.holding o i
rouse (Worker.finishing o) = Worker.finishing o
rouse Worker.gone = Worker.gone

-- `task_(index)`
abbrev pub run_task : Shared → ℕ → Shared
run_task m index = record m { runs = λ i. if i == index then m.runs i + 1 else m.runs i }

-- One step of a worker.
pub data WorkerMove (m : Shared) : Worker → Shared → Worker → Type 0 where
  observe : WorkerMove m born m (starting m.epoch)
  start :
      {o : ℕ}
      → WorkerMove m
          (starting o)
          (record m { started_workers = m.started_workers + 1 })
          (waiting o 0)
  unchanged : {o s : ℕ} → m.epoch ≡ o → WorkerMove m (waiting o s) m (checking o s)
  changed : {o s : ℕ} → m.epoch ≢ o → WorkerMove m (waiting o s) m (woken m.epoch)
  spin :
      {o s : ℕ}
      → s < active_spin_count
      → m.stopping ≡ false
      → WorkerMove m (checking o s) m (waiting o (s + 1))
  wait :
      {o s : ℕ}
      → active_spin_count ≤ s
      → m.stopping ≡ false
      → WorkerMove m (checking o s) m (comparing o)
  sleep : {o : ℕ} → m.epoch ≡ o → WorkerMove m (comparing o) m (sleeping o)
  pass : {o : ℕ} → m.epoch ≢ o → WorkerMove m (comparing o) m (waiting o active_spin_count)
  notice : {o s : ℕ} → m.stopping ≡ true → WorkerMove m (checking o s) m (woken o)
  leave : {c : ℕ} → m.stopping ≡ true → WorkerMove m (woken c) m gone
  enter : {c : ℕ} → m.stopping ≡ false → WorkerMove m (woken c) m (consuming c)
  take : {o : ℕ} → WorkerMove m (consuming o) (record m { next = m.next + 1 }) (holding o m.next)
  run : {o i : ℕ} → i < m.end_index → WorkerMove m (holding o i) (run_task m i) (consuming o)
  exhaust : {o i : ℕ} → m.end_index ≤ i → WorkerMove m (holding o i) m (finishing o)
  finish :
      {o : ℕ}
      → WorkerMove m
          (finishing o)
          (record m { completed_workers = m.completed_workers + 1 })
          (waiting o 0)

-- Where the owner of the executor stands.
pub data Caller : Type 0 where
  constructing : Caller  -- the wait at the end of the constructor
  idle : Caller
  storing_next : Caller
  storing_end : Caller
  resetting : Caller
  publishing : Caller
  notifying : Caller  -- before `notify_all`
  working : Caller
  carrying : (index : ℕ) → Caller
  joining : Caller  -- the wait at the end of `parallel_for`
  clearing : Caller
  serial : (index : ℕ) → Caller  -- the loop for one thread
  returned : Caller  -- `parallel_for` has run its range
  waking : Caller  -- the destructor, after the store to `stopping_`
  rousing : Caller  -- before the `notify_all` of the destructor
  ending : Caller  -- before the joins
  destroyed : Caller

-- One step of the owner, with `n` workers.
pub data CallerMove (n : ℕ) (m : Shared) : Caller → Shared → Caller → Type 0 where
  built : m.started_workers ≡ n → CallerMove n m constructing m idle
  call_none : (begin end : ℕ) → end ≤ begin → CallerMove n m idle m idle
  -- an empty `task`: an exception
  call_empty : (begin end : ℕ) → begin < end → CallerMove n m idle m idle
  call :
      (begin end : ℕ)
      → begin < end
      → 0 < n
      → CallerMove n m idle
          (record m { task = true; runs = λ i. 0; first = begin; limit = end })
          storing_next
  call_serial :
      (begin end : ℕ)
      → begin < end
      → n ≡ 0
      → CallerMove n m idle (record m { runs = λ i. 0; first = begin; limit = end }) (serial begin)
  store_next : CallerMove n m storing_next (record m { next = m.first }) storing_end
  store_end : CallerMove n m storing_end (record m { end_index = m.limit }) resetting
  reset : CallerMove n m resetting (record m { completed_workers = 0 }) publishing
  publish : CallerMove n m publishing (record m { epoch = u64 (m.epoch + 1) }) notifying
  take : CallerMove n m working (record m { next = m.next + 1 }) (carrying m.next)
  run : {i : ℕ} → i < m.end_index → CallerMove n m (carrying i) (run_task m i) working
  exhaust : {i : ℕ} → m.end_index ≤ i → CallerMove n m (carrying i) m joining
  spin : m.completed_workers ≢ n → CallerMove n m joining m joining
  join : m.completed_workers ≡ n → CallerMove n m joining m clearing
  clear : CallerMove n m clearing (record m { task = false }) returned
  run_serial : {i : ℕ} → i < m.limit → CallerMove n m (serial i) (run_task m i) (serial (i + 1))
  leave_serial : {i : ℕ} → m.limit ≤ i → CallerMove n m (serial i) m returned
  return : CallerMove n m returned m idle
  stop : CallerMove n m idle (record m { stopping = true }) waking
  wake : CallerMove n m waking (record m { epoch = u64 (m.epoch + 1) }) rousing

-- An index from `n` on names no worker.
pub record Executor : Type 0 where
  pub shared : Shared
  pub caller : Caller
  pub worker : ℕ → Worker

pub data Step (n : ℕ) (s : Executor) : Executor → Type 0 where
  own :
      {m : Shared} {c : Caller}
      → CallerMove n s.shared s.caller m c
      → Step n s (record s { shared = m; caller = c })
  pick :
      (w : ℕ) {m : Shared} {p : Worker}
      → w < n
      → WorkerMove s.shared (s.worker w) m p
      → Step n s (record s { shared = m; worker = update s.worker w p })
  notify :
      s.caller ≡ Caller.notifying
      → Step n s (record s { caller = Caller.working; worker = λ w. rouse (s.worker w) })
  notify_end :
      s.caller ≡ Caller.rousing
      → Step n s (record s { caller = Caller.ending; worker = λ w. rouse (s.worker w) })
  joined :
      s.caller ≡ Caller.ending
      → ((w : ℕ) → w < n → s.worker w ≡ Worker.gone)
      → Step n s (record s { caller = Caller.destroyed })

-- The constructor's check, and the number of workers that it makes.
unfoldable pub worker_count : ℤ → Result ℕ
worker_count total_threads =
    if ltb_ℤ (pos 0) total_threads
    then ok (pos_part total_threads - 1)
    else err (invalid_argument "persistent executor needs positive threads")

-- The constructor has made the threads; none has run.
abbrev pub constructed : Executor
constructed = record {
  shared = record {
    next = 0;
    end_index = 0;
    task = false;
    completed_workers = 0;
    started_workers = 0;
    epoch = 0;
    stopping = false;
    runs = λ i. 0;
    first = 0;
    limit = 0;
  };
  caller = Caller.constructing;
  worker = λ w. Worker.born;
}

pub data Reach (n : ℕ) : Executor → Type 0 where
  begin : Reach n constructed
  later : {s t : Executor} → Reach n s → Step n s t → Reach n t
