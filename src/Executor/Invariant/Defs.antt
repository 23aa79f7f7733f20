-- ===== src/Executor/Invariant/Defs.antt =====
-- What the phase of the owner of an executor (hpc/fode_cpp/src/executor.cpp) says of the members that
-- the threads share and of where each worker stands.
use fode_hpc_wflop.Base.{
  ℕ, ◌+◌, ◌^◌, ◌≤◌, ◌<◌, ◌≡◌, ◌⊎◌, true, false, ltb, leb, ◌==◌, ◌&&◌, if◌then◌else◌,
}
use fode_hpc_wflop.Rng.{u64}
use fode_hpc_wflop.Executor.{Shared, Worker, Caller, Executor}
use fode_hpc_wflop.Executor.Family.{total}

-- One at the indices from `low` up to `high`, zero elsewhere.
abbrev pub window : ℕ → ℕ → ℕ → ℕ
window low high i = if leb low i && ltb i high then 1 else 0

abbrev pub holds : ℕ → Worker → ℕ
holds i (Worker.holding o j) = if i == j then 1 else 0
holds i _ = 0

-- A worker that has started, and waits for an epoch after `e`.
abbrev pub done : ℕ → Worker → ℕ
done e (Worker.waiting o s) = if o == e then 1 else 0
done e (Worker.checking o s) = if o == e then 1 else 0
done e (Worker.comparing o) = if o == e then 1 else 0
done e (Worker.sleeping o) = if o == e then 1 else 0
done e _ = 0

abbrev pub ready : Worker → ℕ
ready (Worker.waiting o s) = 1
ready (Worker.checking o s) = 1
ready (Worker.comparing o) = 1
ready (Worker.sleeping o) = 1
ready _ = 0

-- Where a worker may stand: while the constructor waits,
abbrev pub Builds : ℕ → Worker → Type 0
Builds e Worker.born = 0 ≤ e
Builds e (Worker.starting o) = o ≡ e
Builds e (Worker.waiting o s) = o ≡ e
Builds e (Worker.checking o s) = o ≡ e
Builds e (Worker.comparing o) = o ≡ e
Builds e (Worker.sleeping o) = o ≡ e
Builds e _ = ⊥

-- between two calls,
abbrev pub Rests : ℕ → Worker → Type 0
Rests e (Worker.waiting o s) = o ≡ e
Rests e (Worker.checking o s) = o ≡ e
Rests e (Worker.comparing o) = o ≡ e
Rests e (Worker.sleeping o) = o ≡ e
Rests e _ = ⊥

-- in a call, where `next` is the first index that no thread has taken,
abbrev pub Works : ℕ → ℕ → Worker → Type 0
Works e next (Worker.waiting o s) = (o ≡ e) ⊎ (u64 (o + 1) ≡ e)
Works e next (Worker.checking o s) = (o ≡ e) ⊎ (u64 (o + 1) ≡ e)
Works e next (Worker.comparing o) = (o ≡ e) ⊎ (u64 (o + 1) ≡ e)
Works e next (Worker.sleeping o) = (o ≡ e) ⊎ (u64 (o + 1) ≡ e)
Works e next (Worker.woken c) = c ≡ e
Works e next (Worker.consuming o) = o ≡ e
Works e next (Worker.holding o i) = (o ≡ e) × (i < next)
Works e next (Worker.finishing o) = o ≡ e
Works e next _ = ⊥

-- and when the destructor has begun.
abbrev pub Ends : Worker → Type 0
Ends (Worker.waiting o s) = 0 ≤ o
Ends (Worker.checking o s) = 0 ≤ o
Ends (Worker.comparing o) = 0 ≤ o
Ends (Worker.sleeping o) = 0 ≤ o
Ends (Worker.woken c) = 0 ≤ c
Ends Worker.gone = 0 ≤ 0
Ends _ = ⊥

abbrev pub Workers : (Worker → Type 0) → ℕ → (ℕ → Worker) → Type 0
Workers P n p = (w : ℕ) → w < n → P (p w)

pub record Live (m : Shared) : Type 0 where
  pub running : m.stopping ≡ false
  pub small : m.epoch < 2 ^ 64

pub record Quiet (n : ℕ) (m : Shared) (p : ℕ → Worker) : Type 0 where
  pub live : Live m
  pub resting : Workers (Rests m.epoch) n p

-- A call that has been published, where the owner holds the index `i` `carried i` times.
pub record Job (n : ℕ) (m : Shared) (carried : ℕ → ℕ) (p : ℕ → Worker) : Type 0 where
  pub live : Live m
  pub armed : m.task ≡ true
  pub end_stored : m.end_index ≡ m.limit
  pub low : m.first ≤ m.next
  pub placed : Workers (Works m.epoch m.next) n p
  pub within :
      (i : ℕ) → i < m.limit → m.runs i + carried i + total (holds i) n p ≡ window m.first m.next i
  pub beyond : (i : ℕ) → m.limit ≤ i → m.runs i ≡ 0
  pub counted : m.completed_workers ≡ total (done m.epoch) n p

-- A call that is being prepared.
pub record Fresh (n : ℕ) (m : Shared) (p : ℕ → Worker) : Type 0 where
  pub quiet : Quiet n m p
  pub armed : m.task ≡ true
  pub positive : m.first < m.limit
  pub unrun : (i : ℕ) → m.runs i ≡ 0

pub record Building (n : ℕ) (m : Shared) (p : ℕ → Worker) : Type 0 where
  pub live : Live m
  pub placed : Workers (Builds m.epoch) n p
  pub counted : m.started_workers ≡ total ready n p

pub record Closing (n : ℕ) (m : Shared) (p : ℕ → Worker) : Type 0 where
  pub stopped : m.stopping ≡ true
  pub placed : Workers Ends n p

abbrev pub nothing : ℕ → ℕ
nothing i = 0

abbrev pub only : ℕ → ℕ → ℕ
only j i = if i == j then 1 else 0

abbrev pub Covered : Shared → ℕ → Type 0
Covered m high = (i : ℕ) → m.runs i ≡ window m.first high i

abbrev pub Facts : ℕ → Shared → Caller → (ℕ → Worker) → Type 0
Facts n m Caller.constructing p = Building n m p
Facts n m Caller.idle p = Quiet n m p
Facts n m Caller.storing_next p = Fresh n m p
Facts n m Caller.storing_end p = Fresh n m p × (m.next ≡ m.first)
Facts n m Caller.resetting p = Fresh n m p × (m.next ≡ m.first) × (m.end_index ≡ m.limit)
Facts n m Caller.publishing p =
    Fresh n m p × (m.next ≡ m.first) × (m.end_index ≡ m.limit) × (m.completed_workers ≡ 0)
Facts n m Caller.notifying p = Job n m nothing p
Facts n m Caller.working p = Job n m nothing p
Facts n m (Caller.carrying j) p = Job n m (only j) p × (j < m.next)
Facts n m Caller.joining p = Job n m nothing p × (m.limit ≤ m.next)
Facts n m Caller.clearing p = Quiet n m p × Covered m m.limit
Facts n m (Caller.serial j) p = Quiet n m p × Covered m j × (m.first ≤ j) × (j ≤ m.limit)
Facts n m Caller.returned p = Quiet n m p × Covered m m.limit
Facts n m Caller.waking p = Closing n m p
Facts n m Caller.rousing p = Closing n m p
Facts n m Caller.ending p = Closing n m p
Facts n m Caller.destroyed p = Closing n m p

abbrev pub Invariant : ℕ → Executor → Type 0
Invariant n s = Facts n s.shared s.caller s.worker
