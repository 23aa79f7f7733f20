-- ===== src/Executor/Bounds.antt =====
-- How far `next_` of hpc/fode_cpp/src/executor.cpp runs past the end of the range.
use fode_hpc_wflop.Base.{ℕ, ◌+◌, ◌≤◌, ◌<◌, ◌≡◌, refl, subst, sym, ltb, ◌==◌, if◌then◌else◌, arith}
use fode_hpc_wflop.Executor.{
  Executor, Shared, Worker, Caller, Reach, begin, later, own, pick, notify, notify_end, joined,
  rouse, active_spin_count, WorkerMove, CallerMove, observe, start, unchanged, changed, spin, wait,
  sleep, pass, notice, leave, enter, take, run, exhaust, finish, built, call_none, call_empty, call,
  call_serial, store_next, store_end, reset, publish, join, clear, run_serial, leave_serial, return,
  stop, wake,
}
use fode_hpc_wflop.Executor.Family.{total, total_same, total-le, total-move, update}
use fode_hpc_wflop.Executor.Invariant.Defs.{Works, Job, Facts, nothing, only}
use fode_hpc_wflop.Executor.Invariant.Calls.{leaves}
use fode_hpc_wflop.Executor.Invariant.Reachable.{Invariant-Reach}

-- A worker that has taken an index past the end, and takes no more in this call.
spent : ℕ → ℕ → Worker → ℕ
spent e limit (Worker.waiting o s) = if o == e then 1 else 0
spent e limit (Worker.checking o s) = if o == e then 1 else 0
spent e limit (Worker.comparing o) = if o == e then 1 else 0
spent e limit (Worker.sleeping o) = if o == e then 1 else 0
spent e limit (Worker.holding o i) = if ltb i limit then 0 else 1
spent e limit (Worker.finishing o) = 1
spent e limit _ = 0

spent-le : (e limit : ℕ) (q : Worker) → spent e limit q ≤ 1
unfolding spent
spent-le e limit Worker.born = omega arith
spent-le e limit (Worker.starting o) = omega arith
spent-le e limit (Worker.waiting o s) = ground arith
spent-le e limit (Worker.checking o s) = ground arith
spent-le e limit (Worker.comparing o) = ground arith
spent-le e limit (Worker.sleeping o) = ground arith
spent-le e limit (Worker.woken o) = omega arith
spent-le e limit (Worker.consuming o) = omega arith
spent-le e limit (Worker.holding o i) = ground arith
spent-le e limit (Worker.finishing o) = omega arith
spent-le e limit Worker.gone = omega arith

spent-rouse : (e limit : ℕ) (q : Worker) → spent e limit (rouse q) ≡ spent e limit q
unfolding spent
spent-rouse e limit Worker.born = refl
spent-rouse e limit (Worker.starting o) = refl
spent-rouse e limit (Worker.waiting o s) = refl
spent-rouse e limit (Worker.checking o s) = refl
spent-rouse e limit (Worker.comparing o) = refl
spent-rouse e limit (Worker.sleeping o) = refl
spent-rouse e limit (Worker.woken o) = refl
spent-rouse e limit (Worker.consuming o) = refl
spent-rouse e limit (Worker.holding o i) = refl
spent-rouse e limit (Worker.finishing o) = refl
spent-rouse e limit Worker.gone = refl

-- `next_` stays so close to the end, where the owner has spent `more`.
abbrev Near : ℕ → Shared → ℕ → (ℕ → Worker) → Type 0
Near n m more p = m.next ≤ m.limit + total (spent m.epoch m.limit) n p + more

module _ (n : ℕ) (m : Shared) (f : ℕ → ℕ) (p : ℕ → Worker) (w : ℕ) (inside : w < n)
    (j : Job n m f p) (more : ℕ) (near : Near n m more p) where
  kept :
      (b q : Worker)
      → p w ≡ b
      → spent m.epoch m.limit q ≡ spent m.epoch m.limit b
      → Near n m more (update p w q)
  kept b q at same = omega (arith, total-move (spent m.epoch m.limit) n p w q inside at)

  worked :
      {m' : Shared} {b q : Worker}
      → WorkerMove m b m' q
      → p w ≡ b
      → Works m.epoch m.next b
      → Near n m' more (update p w q)
  unfolding spent
  worked observe at h = absurd h
  worked start at h = absurd h
  worked (unchanged {o} {s} e) at h = kept (Worker.waiting o s) (Worker.checking o s) at refl
  worked (changed {o} {s} e) at h =
      kept (Worker.waiting o s) (Worker.woken m.epoch) at (ground arith)
  worked (spin {o} {s} few e) at h = kept (Worker.checking o s) (Worker.waiting o (s + 1)) at refl
  worked (wait {o} {s} many e) at h = kept (Worker.checking o s) (Worker.comparing o) at refl
  worked (sleep {o} e) at h = kept (Worker.comparing o) (Worker.sleeping o) at refl
  worked (pass {o} e) at h = kept (Worker.comparing o) (Worker.waiting o active_spin_count) at refl
  worked (notice e) at h = cc j.live.running
  worked (leave e) at h = cc j.live.running
  worked (enter {c} e) at h = kept (Worker.woken c) (Worker.consuming c) at refl
  worked (take {o}) at h =
      ground
        (arith, near, total-move (spent m.epoch m.limit) n p w (Worker.holding o m.next) inside at)
  worked (run {o} {i} e) at h =
      let stored = j.end_stored in
      ground (arith, near, total-move (spent m.epoch m.limit) n p w (Worker.consuming o) inside at)
  worked (exhaust {o} {i} e) at h =
      let stored = j.end_stored in
      ground (arith, near, total-move (spent m.epoch m.limit) n p w (Worker.finishing o) inside at)
  worked (finish {o}) at h =
      ground (arith, near, total-move (spent m.epoch m.limit) n p w (Worker.waiting o 0) inside at)

abbrev Bounded : ℕ → Shared → Caller → (ℕ → Worker) → Type 0
Bounded n m Caller.notifying p = Near n m 0 p
Bounded n m Caller.working p = Near n m 0 p
Bounded n m (Caller.carrying i) p = Near n m (if ltb i m.limit then 0 else 1) p
Bounded n m Caller.joining p = Near n m 1 p
Bounded n m _ p = 0 ≤ n

module _ (n : ℕ) (m : Shared) (p : ℕ → Worker) where
  by_worker :
      (w : ℕ)
      → w < n
      → {m' : Shared} {q : Worker} → WorkerMove m (p w) m' q
      → (c : Caller) → Facts n m c p
      → Bounded n m c p
      → Bounded n m' c (update p w q)
  by_worker w k mv Caller.constructing g h = h
  by_worker w k mv Caller.idle g h = h
  by_worker w k mv Caller.storing_next g h = h
  by_worker w k mv Caller.storing_end g h = h
  by_worker w k mv Caller.resetting g h = h
  by_worker w k mv Caller.publishing g h = h
  by_worker w k mv Caller.notifying g h = worked n m nothing p w k g 0 h mv refl (g.placed w k)
  by_worker w k mv Caller.working g h = worked n m nothing p w k g 0 h mv refl (g.placed w k)
  by_worker w k {m'} {q} mv (Caller.carrying i) g h =
      subst (λ l. Near n m' (if ltb i l then 0 else 1) (update p w q)) (sym (leaves mv).1)
        (worked n m (only i) p w k g.0 (if ltb i m.limit then 0 else 1) h mv refl (g.0.placed w k))
  by_worker w k mv Caller.joining g h = worked n m nothing p w k g.0 1 h mv refl (g.0.placed w k)
  by_worker w k mv Caller.clearing g h = h
  by_worker w k mv (Caller.serial i) g h = h
  by_worker w k mv Caller.returned g h = h
  by_worker w k mv Caller.waking g h = h
  by_worker w k mv Caller.rousing g h = h
  by_worker w k mv Caller.ending g h = h
  by_worker w k mv Caller.destroyed g h = h

  by_owner :
      {c d : Caller} {m' : Shared}
      → CallerMove n m c m' d
      → Facts n m c p
      → Bounded n m c p
      → Bounded n m' d p
  by_owner (built e) g h = omega arith
  by_owner (call_none b e k) g h = h
  by_owner (call_empty b e k) g h = h
  by_owner (call b e k l) g h = h
  by_owner (call_serial b e k l) g h = h
  by_owner store_next g h = h
  by_owner store_end g h = h
  by_owner reset g h = h
  by_owner publish g h = omega (arith, g.1, g.0.positive)
  by_owner take g h = ground arith
  by_owner (run {i} k) g h = ground (arith, g.0.end_stored)
  by_owner (exhaust {i} k) g h = ground (arith, g.0.end_stored)
  by_owner (spin k) g h = h
  by_owner (join e) g h = omega arith
  by_owner clear g h = h
  by_owner (run_serial {i} k) g h = h
  by_owner (leave_serial {i} k) g h = h
  by_owner return g h = h
  by_owner stop g h = h
  by_owner wake g h = h

Bounded-Reach : (n : ℕ) {s : Executor} → Reach n s → Bounded n s.shared s.caller s.worker
Bounded-Reach n begin = omega arith
Bounded-Reach n (later {s} r (own mv)) =
    by_owner n s.shared s.worker mv (Invariant-Reach n r) (Bounded-Reach n r)
Bounded-Reach n (later {s} r (pick w k mv)) =
    by_worker n s.shared s.worker w k mv s.caller (Invariant-Reach n r) (Bounded-Reach n r)
Bounded-Reach n (later {s} r (notify e)) =
    let h = subst (λ c. Bounded n s.shared c s.worker) e (Bounded-Reach n r) in
    omega (
      arith,
      h,
      total_same rouse (spent s.shared.epoch s.shared.limit)
          (spent-rouse s.shared.epoch s.shared.limit) n s.worker,
    )
Bounded-Reach n (later r (notify_end e)) = omega arith
Bounded-Reach n (later r (joined e gone)) = omega arith

-- The owner is in `consume_current_job`, or in the wait behind it.
abbrev pub IsCalling : Caller → Type 0
IsCalling Caller.working = 0 ≤ 0
IsCalling (Caller.carrying i) = 0 ≤ i
IsCalling Caller.joining = 0 ≤ 0
IsCalling _ = ⊥

near :
    (n : ℕ) (m : Shared) (c : Caller) (p : ℕ → Worker)
    → IsCalling c
    → Bounded n m c p
    → m.next ≤ m.limit + n + 1
near n m Caller.constructing p h b = absurd h
near n m Caller.idle p h b = absurd h
near n m Caller.storing_next p h b = absurd h
near n m Caller.storing_end p h b = absurd h
near n m Caller.resetting p h b = absurd h
near n m Caller.publishing p h b = absurd h
near n m Caller.notifying p h b = absurd h
near n m Caller.working p h b =
    omega (arith, total-le (spent m.epoch m.limit) n p (spent-le m.epoch m.limit))
near n m (Caller.carrying i) p h b =
    ground (arith, total-le (spent m.epoch m.limit) n p (spent-le m.epoch m.limit))
near n m Caller.joining p h b =
    omega (arith, total-le (spent m.epoch m.limit) n p (spent-le m.epoch m.limit))
near n m Caller.clearing p h b = absurd h
near n m (Caller.serial i) p h b = absurd h
near n m Caller.returned p h b = absurd h
near n m Caller.waking p h b = absurd h
near n m Caller.rousing p h b = absurd h
near n m Caller.ending p h b = absurd h
near n m Caller.destroyed p h b = absurd h

-- While the owner is in its part of a call, `next_` is at most `end` and the number of threads:
-- each takes one index past the end at most, so that the int overflows only for an `end` that close
-- to its limit.
pub next-le :
    (n : ℕ) {s : Executor} → Reach n s → IsCalling s.caller → s.shared.next ≤ s.shared.limit + n + 1
next-le n {s} r h = near n s.shared s.caller s.worker h (Bounded-Reach n r)
