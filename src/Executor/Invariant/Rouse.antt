-- ===== src/Executor/Invariant/Rouse.antt =====
-- What `epoch_.notify_all()` of hpc/fode_cpp/src/executor.cpp leaves alone.
use fode_hpc_wflop.Base.{ℕ, ◌≡◌, refl, sym, ◌∙◌, arith}
use fode_hpc_wflop.Executor.{Shared, Worker, rouse}
use fode_hpc_wflop.Executor.Family.{total_same}
use fode_hpc_wflop.Executor.Invariant.Defs.{holds, done, Works, Ends, Job, Closing}

holds-rouse : (i : ℕ) (q : Worker) → holds i (rouse q) ≡ holds i q
holds-rouse i Worker.born = refl
holds-rouse i (Worker.starting o) = refl
holds-rouse i (Worker.waiting o s) = refl
holds-rouse i (Worker.checking o s) = refl
holds-rouse i (Worker.comparing o) = refl
holds-rouse i (Worker.sleeping o) = refl
holds-rouse i (Worker.woken o) = refl
holds-rouse i (Worker.consuming o) = refl
holds-rouse i (Worker.holding o j) = refl
holds-rouse i (Worker.finishing o) = refl
holds-rouse i Worker.gone = refl

pub done-rouse : (e : ℕ) (q : Worker) → done e (rouse q) ≡ done e q
done-rouse e Worker.born = refl
done-rouse e (Worker.starting o) = refl
done-rouse e (Worker.waiting o s) = refl
done-rouse e (Worker.checking o s) = refl
done-rouse e (Worker.comparing o) = refl
done-rouse e (Worker.sleeping o) = refl
done-rouse e (Worker.woken o) = refl
done-rouse e (Worker.consuming o) = refl
done-rouse e (Worker.holding o j) = refl
done-rouse e (Worker.finishing o) = refl
done-rouse e Worker.gone = refl

Works-rouse : (e next : ℕ) (q : Worker) → Works e next q → Works e next (rouse q)
Works-rouse e next Worker.born h = h
Works-rouse e next (Worker.starting o) h = h
Works-rouse e next (Worker.waiting o s) h = h
Works-rouse e next (Worker.checking o s) h = h
Works-rouse e next (Worker.comparing o) h = h
Works-rouse e next (Worker.sleeping o) h = h
Works-rouse e next (Worker.woken o) h = h
Works-rouse e next (Worker.consuming o) h = h
Works-rouse e next (Worker.holding o j) h = h
Works-rouse e next (Worker.finishing o) h = h
Works-rouse e next Worker.gone h = h

Ends-rouse : (q : Worker) → Ends q → Ends (rouse q)
Ends-rouse Worker.born h = h
Ends-rouse (Worker.starting o) h = h
Ends-rouse (Worker.waiting o s) h = h
Ends-rouse (Worker.checking o s) h = h
Ends-rouse (Worker.comparing o) h = h
Ends-rouse (Worker.sleeping o) h = h
Ends-rouse (Worker.woken o) h = h
Ends-rouse (Worker.consuming o) h = h
Ends-rouse (Worker.holding o j) h = h
Ends-rouse (Worker.finishing o) h = h
Ends-rouse Worker.gone h = h

module _ (n : ℕ) (m : Shared) (p : ℕ → Worker) where
  pub Job-rouse : (f : ℕ → ℕ) → Job n m f p → Job n m f (λ w. rouse (p w))
  Job-rouse f j = record {
    live = j.live;
    armed = j.armed;
    end_stored = j.end_stored;
    low = j.low;
    placed = λ w k. Works-rouse m.epoch m.next (p w) (j.placed w k);
    within = λ i h. omega (arith, j.within i h, total_same rouse (holds i) (holds-rouse i) n p);
    beyond = j.beyond;
    counted = j.counted ∙ sym (total_same rouse (done m.epoch) (done-rouse m.epoch) n p);
  }

  pub Closing-rouse : Closing n m p → Closing n m (λ w. rouse (p w))
  Closing-rouse g = record { stopped = g.stopped; placed = λ w k. Ends-rouse (p w) (g.placed w k) }
