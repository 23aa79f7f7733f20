-- ===== src/Executor/Awake.antt =====
-- Why no worker of hpc/fode_cpp/src/executor.cpp sleeps through a call: the epoch changes under a
-- sleeping worker only between `epoch_.fetch_add` and `epoch_.notify_all`.
use fode_hpc_wflop.Base.{ℕ, ◌≤◌, ◌<◌, ◌≡◌, refl, subst, sym, arith}
use fode_hpc_wflop.Executor.{
  Executor, Shared, Worker, rouse, Caller, Reach, begin, later, own, pick, notify, notify_end,
  joined, WorkerMove, observe, start, unchanged, changed, spin, wait, sleep, pass, notice, leave,
  enter, take, run, exhaust, finish, CallerMove, built, call_none, call_empty, call, call_serial,
  store_next, store_end, reset, publish, join, clear, run_serial, leave_serial, return, stop, wake,
}
use fode_hpc_wflop.Executor.Family.{update, update-all}

-- A worker that sleeps waits for an epoch after `e`.
abbrev pub SleepsAt : ℕ → Worker → Type 0
SleepsAt e (Worker.sleeping o) = o ≡ e
SleepsAt e _ = 0 ≤ e

abbrev Awake : ℕ → Shared → (ℕ → Worker) → Type 0
Awake n m p = (w : ℕ) → w < n → SleepsAt m.epoch (p w)

-- All the time but before a `notify_all`.
abbrev Woken : ℕ → Shared → Caller → (ℕ → Worker) → Type 0
Woken n m Caller.constructing p = Awake n m p
Woken n m Caller.idle p = Awake n m p
Woken n m Caller.storing_next p = Awake n m p
Woken n m Caller.storing_end p = Awake n m p
Woken n m Caller.resetting p = Awake n m p
Woken n m Caller.publishing p = Awake n m p
Woken n m Caller.notifying p = 0 ≤ n
Woken n m Caller.working p = Awake n m p
Woken n m (Caller.carrying i) p = Awake n m p
Woken n m Caller.joining p = Awake n m p
Woken n m Caller.clearing p = Awake n m p
Woken n m (Caller.serial i) p = Awake n m p
Woken n m Caller.returned p = Awake n m p
Woken n m Caller.waking p = Awake n m p
Woken n m Caller.rousing p = 0 ≤ n
Woken n m Caller.ending p = Awake n m p
Woken n m Caller.destroyed p = Awake n m p

SleepsAt-rouse : (e : ℕ) (q : Worker) → SleepsAt e (rouse q)
SleepsAt-rouse e Worker.born = omega arith
SleepsAt-rouse e (Worker.starting o) = omega arith
SleepsAt-rouse e (Worker.waiting o s) = omega arith
SleepsAt-rouse e (Worker.checking o s) = omega arith
SleepsAt-rouse e (Worker.comparing o) = omega arith
SleepsAt-rouse e (Worker.sleeping o) = omega arith
SleepsAt-rouse e (Worker.woken o) = omega arith
SleepsAt-rouse e (Worker.consuming o) = omega arith
SleepsAt-rouse e (Worker.holding o j) = omega arith
SleepsAt-rouse e (Worker.finishing o) = omega arith
SleepsAt-rouse e Worker.gone = omega arith

-- A worker leaves the epoch alone, and falls asleep on the present one.
falls :
    {m m' : Shared} {b q : Worker} → WorkerMove m b m' q → (m'.epoch ≡ m.epoch) × SleepsAt m.epoch q
falls observe = (refl, omega arith)
falls start = (refl, omega arith)
falls (unchanged e) = (refl, omega arith)
falls (changed e) = (refl, omega arith)
falls (spin few e) = (refl, omega arith)
falls (wait many e) = (refl, omega arith)
falls (sleep e) = (refl, sym e)
falls (pass e) = (refl, omega arith)
falls (notice e) = (refl, omega arith)
falls (leave e) = (refl, omega arith)
falls (enter e) = (refl, omega arith)
falls take = (refl, omega arith)
falls (run e) = (refl, omega arith)
falls (exhaust e) = (refl, omega arith)
falls finish = (refl, omega arith)

module _ (n : ℕ) (m : Shared) (p : ℕ → Worker) where
  module _ (w : ℕ) {m' : Shared} {q : Worker} (mv : WorkerMove m (p w) m' q) where
    asleep : Awake n m p → Awake n m' (update p w q)
    asleep h v k =
        subst (λ e. SleepsAt e (update p w q v)) (sym (falls mv).0)
          (update-all (SleepsAt m.epoch) n p w q (falls mv).1 h v k)

    by_worker : (c : Caller) → Woken n m c p → Woken n m' c (update p w q)
    by_worker Caller.constructing h = asleep h
    by_worker Caller.idle h = asleep h
    by_worker Caller.storing_next h = asleep h
    by_worker Caller.storing_end h = asleep h
    by_worker Caller.resetting h = asleep h
    by_worker Caller.publishing h = asleep h
    by_worker Caller.notifying h = h
    by_worker Caller.working h = asleep h
    by_worker (Caller.carrying i) h = asleep h
    by_worker Caller.joining h = asleep h
    by_worker Caller.clearing h = asleep h
    by_worker (Caller.serial i) h = asleep h
    by_worker Caller.returned h = asleep h
    by_worker Caller.waking h = asleep h
    by_worker Caller.rousing h = h
    by_worker Caller.ending h = asleep h
    by_worker Caller.destroyed h = asleep h

  by_owner : {c d : Caller} {m' : Shared} → CallerMove n m c m' d → Woken n m c p → Woken n m' d p
  by_owner (built e) h = h
  by_owner (call_none b e k) h = h
  by_owner (call_empty b e k) h = h
  by_owner (call b e k l) h = h
  by_owner (call_serial b e k l) h = h
  by_owner store_next h = h
  by_owner store_end h = h
  by_owner reset h = h
  by_owner publish h = omega arith
  by_owner take h = h
  by_owner (run k) h = h
  by_owner (exhaust k) h = h
  by_owner (spin k) h = h
  by_owner (join e) h = h
  by_owner clear h = h
  by_owner (run_serial k) h = h
  by_owner (leave_serial k) h = h
  by_owner return h = h
  by_owner stop h = h
  by_owner wake h = omega arith

Woken-Reach : (n : ℕ) {s : Executor} → Reach n s → Woken n s.shared s.caller s.worker
Woken-Reach n begin = λ w k. omega arith
Woken-Reach n (later {s} r (own mv)) = by_owner n s.shared s.worker mv (Woken-Reach n r)
Woken-Reach n (later {s} r (pick w k mv)) =
    by_worker n s.shared s.worker w mv s.caller (Woken-Reach n r)
Woken-Reach n (later {s} r (notify e)) = λ w k. SleepsAt-rouse s.shared.epoch (s.worker w)
Woken-Reach n (later {s} r (notify_end e)) = λ w k. SleepsAt-rouse s.shared.epoch (s.worker w)
Woken-Reach n (later {s} r (joined e gone)) =
    subst (λ c. Woken n s.shared c s.worker) e (Woken-Reach n r)

pub Awake-joining :
    {n : ℕ} {s : Executor}
    → Reach n s
    → s.caller ≡ Caller.joining
    → (w : ℕ) → w < n
    → SleepsAt s.shared.epoch (s.worker w)
Awake-joining {n} {s} r e = subst (λ c. Woken n s.shared c s.worker) e (Woken-Reach n r)
