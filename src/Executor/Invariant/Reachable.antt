-- ===== src/Executor/Invariant/Reachable.antt =====
-- The invariant of the threads of hpc/fode_cpp/src/executor.cpp at every state that they reach.
use fode_hpc_wflop.Base.{ℕ, ◌≡◌, refl, sym, subst, arith}
use fode_hpc_wflop.Executor.{
  Executor, Worker, Caller, Step, own, pick, notify, notify_end, joined, Reach, begin, later,
  constructed,
}
use fode_hpc_wflop.Executor.Family.{total-zero}
use fode_hpc_wflop.Executor.Invariant.Defs.{ready, nothing, Facts, Invariant}
use fode_hpc_wflop.Executor.Invariant.Workers.{work}
use fode_hpc_wflop.Executor.Invariant.Owner
use fode_hpc_wflop.Executor.Invariant.Rouse.{Job-rouse, Closing-rouse}

ended :
    (n : ℕ) (s : Executor) (c : Caller) → s.caller ≡ c → Invariant n s → Facts n s.shared c s.worker
ended n s c e g = subst (λ d. Facts n s.shared d s.worker) e g

Invariant-Step : (n : ℕ) {s t : Executor} → Step n s t → Invariant n s → Invariant n t
Invariant-Step n {s} (own mv) g = Owner.own n s.shared s.worker mv g
Invariant-Step n {s} (pick w k mv) g = work n s.shared s.worker w k mv s.caller g
Invariant-Step n {s} (notify e) g =
    Job-rouse n s.shared s.worker nothing (ended n s Caller.notifying e g)
Invariant-Step n {s} (notify_end e) g =
    Closing-rouse n s.shared s.worker (ended n s Caller.rousing e g)
Invariant-Step n {s} (joined e gone) g = ended n s Caller.ending e g

Invariant-constructed : (n : ℕ) → Invariant n constructed
Invariant-constructed n = record {
  live = record { running = refl; small = omega arith };
  placed = λ w k. omega arith;
  counted = sym (total-zero ready n (λ w. Worker.born) (λ w k. refl));
}

pub Invariant-Reach : (n : ℕ) {s : Executor} → Reach n s → Invariant n s
Invariant-Reach n begin = Invariant-constructed n
Invariant-Reach n (later r st) = Invariant-Step n st (Invariant-Reach n r)
