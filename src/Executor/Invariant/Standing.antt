-- ===== src/Executor/Invariant/Standing.antt =====
-- What a place of a worker of hpc/fode_cpp/src/executor.cpp in one phase says of the next phase.
use fode_hpc_wflop.Base.{ℕ, ◌+◌, ◌^◌, ◌≤◌, ◌<◌, ◌≡◌, inr, refl, ap, ◌==◌, if◌then◌else◌, arith}
use fode_hpc_wflop.Rng.{u64}
use fode_hpc_wflop.Executor.{Worker}
use fode_hpc_wflop.Executor.Invariant.Defs.{holds, done, ready, Builds, Rests, Works, Ends}

pub ready-le : (q : Worker) → ready q ≤ 1
ready-le Worker.born = omega arith
ready-le (Worker.starting o) = omega arith
ready-le (Worker.waiting o s) = omega arith
ready-le (Worker.checking o s) = omega arith
ready-le (Worker.comparing o) = omega arith
ready-le (Worker.sleeping o) = omega arith
ready-le (Worker.woken o) = omega arith
ready-le (Worker.consuming o) = omega arith
ready-le (Worker.holding o i) = omega arith
ready-le (Worker.finishing o) = omega arith
ready-le Worker.gone = omega arith

pub done-le : (e : ℕ) (q : Worker) → done e q ≤ 1
done-le e Worker.born = omega arith
done-le e (Worker.starting o) = omega arith
done-le e (Worker.waiting o s) = ground arith
done-le e (Worker.checking o s) = ground arith
done-le e (Worker.comparing o) = ground arith
done-le e (Worker.sleeping o) = ground arith
done-le e (Worker.woken o) = omega arith
done-le e (Worker.consuming o) = omega arith
done-le e (Worker.holding o i) = omega arith
done-le e (Worker.finishing o) = omega arith
done-le e Worker.gone = omega arith

-- A worker that has started while the constructor waits is at rest.
pub Rests-Builds : (e : ℕ) (q : Worker) → Builds e q → ready q ≡ 1 → Rests e q
Rests-Builds e Worker.born h k = absurd (omega arith)
Rests-Builds e (Worker.starting o) h k = absurd (omega arith)
Rests-Builds e (Worker.waiting o s) h k = h
Rests-Builds e (Worker.checking o s) h k = h
Rests-Builds e (Worker.comparing o) h k = h
Rests-Builds e (Worker.sleeping o) h k = h
Rests-Builds e (Worker.woken o) h k = absurd h
Rests-Builds e (Worker.consuming o) h k = absurd h
Rests-Builds e (Worker.holding o i) h k = absurd h
Rests-Builds e (Worker.finishing o) h k = absurd h
Rests-Builds e Worker.gone h k = absurd h

-- A worker that has finished the call is at rest.
pub Rests-done : (e : ℕ) (q : Worker) → done e q ≡ 1 → Rests e q
Rests-done e Worker.born k = absurd (omega arith)
Rests-done e (Worker.starting o) k = absurd (omega arith)
Rests-done e (Worker.waiting o s) k = ground arith
Rests-done e (Worker.checking o s) k = ground arith
Rests-done e (Worker.comparing o) k = ground arith
Rests-done e (Worker.sleeping o) k = ground arith
Rests-done e (Worker.woken o) k = absurd (omega arith)
Rests-done e (Worker.consuming o) k = absurd (omega arith)
Rests-done e (Worker.holding o i) k = absurd (omega arith)
Rests-done e (Worker.finishing o) k = absurd (omega arith)
Rests-done e Worker.gone k = absurd (omega arith)

-- A worker at rest holds no index.
pub holds-Rests : (e i : ℕ) (q : Worker) → Rests e q → holds i q ≡ 0
holds-Rests e i Worker.born h = refl
holds-Rests e i (Worker.starting o) h = refl
holds-Rests e i (Worker.waiting o s) h = refl
holds-Rests e i (Worker.checking o s) h = refl
holds-Rests e i (Worker.comparing o) h = refl
holds-Rests e i (Worker.sleeping o) h = refl
holds-Rests e i (Worker.woken o) h = refl
holds-Rests e i (Worker.consuming o) h = refl
holds-Rests e i (Worker.holding o j) h = absurd h
holds-Rests e i (Worker.finishing o) h = refl
holds-Rests e i Worker.gone h = refl

-- A worker at rest has not seen the next epoch, and may be stopped.
module _ (e : ℕ) (small : e < 2 ^ 64) where
  moved_on : (o : ℕ) → o ≡ e → ◌≡◌ {A = ℕ} (if o == u64 (e + 1) then 1 else 0) 0
  moved_on o h = ground arith

  pub done-publish : (q : Worker) → Rests e q → done (u64 (e + 1)) q ≡ 0
  done-publish Worker.born h = refl
  done-publish (Worker.starting o) h = refl
  done-publish (Worker.waiting o s) h = moved_on o h
  done-publish (Worker.checking o s) h = moved_on o h
  done-publish (Worker.comparing o) h = moved_on o h
  done-publish (Worker.sleeping o) h = moved_on o h
  done-publish (Worker.woken o) h = refl
  done-publish (Worker.consuming o) h = refl
  done-publish (Worker.holding o j) h = refl
  done-publish (Worker.finishing o) h = refl
  done-publish Worker.gone h = refl

  pub Works-publish : (next : ℕ) (q : Worker) → Rests e q → Works (u64 (e + 1)) next q
  Works-publish next Worker.born h = absurd h
  Works-publish next (Worker.starting o) h = absurd h
  Works-publish next (Worker.waiting o s) h = inr (ap (λ k. u64 (k + 1)) h)
  Works-publish next (Worker.checking o s) h = inr (ap (λ k. u64 (k + 1)) h)
  Works-publish next (Worker.comparing o) h = inr (ap (λ k. u64 (k + 1)) h)
  Works-publish next (Worker.sleeping o) h = inr (ap (λ k. u64 (k + 1)) h)
  Works-publish next (Worker.woken o) h = absurd h
  Works-publish next (Worker.consuming o) h = absurd h
  Works-publish next (Worker.holding o j) h = absurd h
  Works-publish next (Worker.finishing o) h = absurd h
  Works-publish next Worker.gone h = absurd h

pub Ends-stop : (e : ℕ) (q : Worker) → Rests e q → Ends q
Ends-stop e Worker.born h = absurd h
Ends-stop e (Worker.starting o) h = absurd h
Ends-stop e (Worker.waiting o s) h = omega arith
Ends-stop e (Worker.checking o s) h = omega arith
Ends-stop e (Worker.comparing o) h = omega arith
Ends-stop e (Worker.sleeping o) h = omega arith
Ends-stop e (Worker.woken o) h = absurd h
Ends-stop e (Worker.consuming o) h = absurd h
Ends-stop e (Worker.holding o j) h = absurd h
Ends-stop e (Worker.finishing o) h = absurd h
Ends-stop e Worker.gone h = absurd h
