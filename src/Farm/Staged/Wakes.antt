-- ===== src/Farm/Staged/Wakes.antt =====
-- What `wakes_from`, the loop of the fused schedule of hpc/fode_cpp/src/evaluator.cpp, leaves at each
-- turbine.
use fode_hpc_wflop.Base.{
  ℕ, zero, suc, ◌+◌, ◌≤◌, ◌<◌, ◌≡◌, ◌≢◌, refl, ap, ◌∙◌, List, length, get_or, set, take, length-set,
  get_or-set_self, get_or-set_ne, arith,
}
use native.Mathlib.Decide.{dec_lt}
use fode_hpc_wflop.Case.{CaseData}
use fode_hpc_wflop.Double.{Double, nought}
use fode_hpc_wflop.Farm.Fused.{squared_sum, wakes_from}

module _ {W : Type 0} ⦃D : Double W⦄ (farm : CaseData W) (centres : List (W × W))
    (order : List ℕ) where
  -- The wake at a position of the order.
  abbrev pub loss : ℕ → W
  loss position =
      D.sqrt (squared_sum farm centres (get_or order position 0) (take (position + 1) order) nought)

  pub wakes_from-other :
      (position count : ℕ) (wake : List W) (t : ℕ)
      → ((q : ℕ) → position ≤ q → q < position + count → get_or order q 0 ≢ t)
      → get_or (wakes_from farm centres order position count wake) t nought ≡ get_or wake t nought
  unfolding wakes_from
  wakes_from-other position zero wake t h = refl
  wakes_from-other position (suc count) wake t h =
      wakes_from-other (position + 1) count (set wake (get_or order position 0) (loss position)) t
        (λ q l m. h q (omega arith) (omega arith))
      ∙ get_or-set_ne wake (get_or order position 0) t (loss position) nought
          (h position (omega arith) (omega arith))

  pub wakes_from-at :
      (position count : ℕ) (wake : List W) (q : ℕ)
      → ((p : ℕ) → q < p → p < position + count → get_or order p 0 ≢ get_or order q 0)
      → position ≤ q
      → q < position + count
      → get_or order q 0 < length wake
      → get_or (wakes_from farm centres order position count wake) (get_or order q 0) nought
        ≡ loss q
  unfolding wakes_from
  wakes_from-at position zero wake q h l m k = absurd (omega arith)
  wakes_from-at position (suc count) wake q h l m k = elim (dec_lt position q) [
    | yes later ↦
        wakes_from-at (position + 1) count (set wake (get_or order position 0) (loss position)) q
          (λ p a b. h p a (omega arith)) (omega arith) (omega arith)
          (omega (arith, length-set wake (get_or order position 0) (loss position)))
    | no here ↦
        let same : position ≡ q = omega arith in
        wakes_from-other (position + 1) count (set wake (get_or order position 0) (loss position))
          (get_or order q 0) (λ p a b. h p (omega arith) (omega arith))
        ∙ ap (λ p. get_or (set wake (get_or order p 0) (loss p)) (get_or order q 0) nought) same
        ∙ get_or-set_self wake (get_or order q 0) (loss q) nought k
  ]

  pub length-wakes_from :
      (position count : ℕ) (wake : List W)
      → length (wakes_from farm centres order position count wake) ≡ length wake
  unfolding wakes_from
  length-wakes_from position zero wake = refl
  length-wakes_from position (suc count) wake =
      length-wakes_from (position + 1) count (set wake (get_or order position 0) (loss position))
      ∙ length-set wake (get_or order position 0) (loss position)
