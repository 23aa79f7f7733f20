-- ===== src/Wflop/Admitted.antt =====
-- The registry and the dispatch fit together: what the registry admits is called.
use fode_hpc_wflop.Base.{
  ◌==◌, Bool-cases, all_of, pos, ltb_ℤ, Result, ok, err, ◌>>=◌, ◌<◌, String, ◌≡◌, refl, subst, inl,
  inr, Bool, true, false, ◌&&◌, ◌||◌, Option, none, some, List, [], ◌∷◌, arith,
}
use fode_hpc_wflop.Wflop.Registry.{
  found, AlgorithmDescriptor, algorithm_descriptors, find_algorithm, algorithm_descriptor,
  problem_descriptors, find_problem, problem_descriptor, is_listed, algorithm_supports_problem,
}
use text.Mathlib.Text.{◌==◌ as ◌≗◌}
use text.Mathlib.TextEquality.{eq_iff}
use fode_hpc_wflop.Wflop.Dispatch.{RunConfig, refuse_by_name, call, optimize}

-- A call that returns.
pub record Returns {ℓ} {A : Type ℓ} (r : Result A) : Type ℓ where
  pub value : A
  pub returned : r ≡ ok value

is_ok {ℓ} : {A : Type ℓ} → Result A → Bool
is_ok (ok a) = true
is_ok (err e) = false

is_ok-Returns {ℓ} : {A : Type ℓ} (r : Result A) → is_ok r ≡ true → Returns r
unfolding is_ok
is_ok-Returns (ok a) h = record { value = a; returned = refl }
is_ok-Returns (err e) h = ground arith

-- What a registered algorithm needs to be called for each of its problems.
is_served : AlgorithmDescriptor → Bool
unfolding is_ok
is_served d =
    is_ok (refuse_by_name d.id)
    && (is_ok (call d.id)
        && all_of (λ problem. is_ok (problem_descriptor problem)) d.compatible_problem_ids)

all_served : all_of is_served algorithm_descriptors ≡ true
unfolding is_served algorithm_descriptors refuse_by_name call problem_descriptor find_problem
    problem_descriptors
all_served = refl

record Found (id : String) (d : AlgorithmDescriptor) : Type 0 where
  served : is_served d ≡ true
  named : d.id ≡ id

find_algorithm-Found :
    (id : String) (ds : List AlgorithmDescriptor) (d : AlgorithmDescriptor)
    → all_of is_served ds ≡ true
    → find_algorithm id ds ≡ some d
    → Found id d
unfolding find_algorithm
find_algorithm-Found id [] d s h = ground arith
find_algorithm-Found id (e ∷ ds) d s h = elim (Bool-cases (e.id ≗ id)) [
  | inl same ↦
      let e_is_d : e ≡ d = ground arith in
      subst (Found id) e_is_d (record { served = ground arith; named = (eq_iff e.id id).0 same })
  | inr other ↦ find_algorithm-Found id ds d (ground arith) (ground arith)
]

listed_all :
    (q : String → Bool) (id : String) (ids : List String)
    → all_of q ids ≡ true
    → is_listed id ids ≡ true
    → q id ≡ true
unfolding is_listed
listed_all q id [] a h = ground arith
listed_all q id (x ∷ xs) a h = elim (Bool-cases (x ≗ id)) [
  | inl same ↦ subst (λ t. q t ≡ true) ((eq_iff x id).0 same) (ground arith)
  | inr other ↦ listed_all q id xs (ground arith) (ground arith)
]

-- What the registry says of an algorithm and one of its problems.
record Admission (algorithm_id problem_id : String) : Type 0 where
  unrefused : Returns (refuse_by_name algorithm_id)
  called : Returns (call algorithm_id)
  problem : Returns (problem_descriptor problem_id)

supported_found :
    (text problem_id : String) (o : Option AlgorithmDescriptor)
    → (found text o >>= λ d. ok (is_listed problem_id d.compatible_problem_ids)) ≡ ok true
    → (d : AlgorithmDescriptor) × (o ≡ some d)
      × (is_listed problem_id d.compatible_problem_ids ≡ true)
unfolding found
supported_found text problem_id none h = ground arith
supported_found text problem_id (some d) h = (d, refl, ground arith)

supports-Admission :
    (algorithm_id problem_id : String)
    → algorithm_supports_problem algorithm_id problem_id ≡ ok true
    → Admission algorithm_id problem_id
unfolding algorithm_supports_problem algorithm_descriptor is_served
supports-Admission algorithm_id problem_id h =
    let (d, e, listed) =
      supported_found _ problem_id (find_algorithm algorithm_id algorithm_descriptors) h in
    let f = find_algorithm-Found algorithm_id algorithm_descriptors d all_served e in
    record {
      unrefused =
          is_ok-Returns _
            (subst (λ id. is_ok (refuse_by_name id) ≡ true) f.named (ground (arith, f.served)));
      called =
          is_ok-Returns _ (subst (λ id. is_ok (call id) ≡ true) f.named (ground (arith, f.served)));
      problem = is_ok-Returns _ (
          listed_all (λ id. is_ok (problem_descriptor id)) problem_id d.compatible_problem_ids
            (ground (arith, f.served)) listed);
    }

-- A run with a positive budget and a worker at least, whose algorithm the registry admits for its
-- problem, is never refused: no refusal by name shadows a registered algorithm, its problem is
-- registered, and the chain of tests at the end reaches a call for it.
pub optimize-Returns :
    (config : RunConfig)
    → 0 < config.physical_fes_budget
    → ltb_ℤ config.workers (pos 1) ≡ false
    → algorithm_supports_problem config.algorithm_id config.problem_id ≡ ok true
    → Returns (optimize config)
unfolding optimize
optimize-Returns config b w h =
    let a = supports-Admission config.algorithm_id config.problem_id h in
    let positive : (config.physical_fes_budget == 0 || ltb_ℤ config.workers (pos 1)) ≡ false =
      ground arith in
    record {
      value = a.called.value;
      returned = rw (positive, a.unrefused.returned, a.problem.returned, h) (a.called.returned);
    }
