-- ===== src/Gga/Ranking/Ranked.antt =====
-- `bi_rank_and_crowding` sorts the layouts by dominance.
use fode_hpc_wflop.Base.{
  ℕ, ◌<◌, ◌≡◌, refl, subst, ℤ, Bool, true, false, List, map, ◌==◌, length, length-map, replicate,
  All, All-get_or, Bool-cases, inl, inr, Result, ok, arith,
}
use fode_hpc_wflop.Base.Sort.Laws.{All-map}
use fode_hpc_wflop.Double.{Double, nought}
use fode_hpc_wflop.Double.Laws.{SplitsNumbers}
use fode_hpc_wflop.Gga.Ranking.{
  Evaluation, RankedPopulation, bi_dominates, tmoea_objectives, objectives_at, pushed, crowd,
  bi_rank_and_crowding,
}
use fode_hpc_wflop.Gga.Ranking.Start.{ranks_of-Sorts}
use fode_hpc_wflop.Gga.Ranking.Assigned.{IsRanked}

module _ {W : Type 0} ⦃D : Double W⦄ where
  bi_dominates-asymm : (l r : W × W) → bi_dominates l r ≡ true → bi_dominates r l ≡ false
  unfolding bi_dominates
  bi_dominates-asymm (l0, l1) (r0, r1) h = ground arith

  bi_dominates_irrefl : (l : W × W) → bi_dominates l l ≡ false
  unfolding bi_dominates
  bi_dominates_irrefl (l0, l1) = ground arith

  -- Neither objective is a NaN.
  abbrev pub Numbers : W × W → Type 0
  Numbers (o0, o1) = (D.eq o0 o0 ≡ true) × (D.eq o1 o1 ≡ true)

  bi_dominates_trans :
      (splits : SplitsNumbers D) (l m r : W × W)
      → Numbers l
      → Numbers m
      → Numbers r
      → bi_dominates l m ≡ true
      → bi_dominates m r ≡ true
      → bi_dominates l r ≡ true
  unfolding bi_dominates
  bi_dominates_trans splits (l0, l1) (m0, m1) (r0, r1) a b c h k = ground (
    arith,
    splits.lt_split r0 m0 l0 c.0 b.0 a.0,
    splits.lt_split r1 m1 l1 c.1 b.1 a.1,
    splits.lt_split l0 r0 m0 a.0 c.0 b.0,
    splits.lt_split l1 r1 m1 a.1 c.1 b.1,
  )

  module _ (splits : SplitsNumbers D) (values : List (Evaluation W))
      (numbers : All (λ v. Numbers (tmoea_objectives v)) values) where
    abbrev at : ℕ → W × W
    at = objectives_at values

    abbrev n : ℕ
    n = length values

    abbrev dominates : ℕ → ℕ → Bool
    dominates i j = bi_dominates (at i) (at j)

    objectives_at-Numbers : (i : ℕ) → i < n → Numbers (at i)
    objectives_at-Numbers i h =
        All-get_or Numbers (map tmoea_objectives values) i _
          (All-map Numbers tmoea_objectives values numbers)
          (omega (arith, length-map tmoea_objectives values))

    pushed_irrefl : (x : ℕ) → pushed values x x ≡ false
    unfolding pushed
    pushed_irrefl x = ground arith

    pushed→dominates : (i j : ℕ) → pushed values i j ≡ true → dominates i j ≡ true
    unfolding pushed
    pushed→dominates i j h = ground arith

    dominates→pushed : (i j : ℕ) → dominates i j ≡ true → pushed values i j ≡ true
    unfolding pushed
    dominates→pushed i j h = elim (Bool-cases (i == j)) [
      | inl same ↦
          let p : i ≡ j = ground arith in
          absurd (cc (bi_dominates_irrefl (at j), subst (λ k. dominates k j ≡ true) p h))
      | inr apart ↦ ground (arith, bi_dominates-asymm (at i) (at j))
    ]

    pushed_trans :
        (x y z : ℕ)
        → x < n
        → y < n
        → z < n
        → pushed values x y ≡ true
        → pushed values y z ≡ true
        → pushed values x z ≡ true
    pushed_trans x y z a b c h k = dominates→pushed x z (
        bi_dominates_trans splits (at x) (at y) (at z) (objectives_at-Numbers x a)
          (objectives_at-Numbers y b) (objectives_at-Numbers z c) (pushed→dominates x y h)
          (pushed→dominates y z k))

    by_dominance :
        (rank : List ℤ) (j : ℕ) → IsRanked (pushed values) n rank j → IsRanked dominates n rank j
    by_dominance rank j r = record {
      level = r.level;
      own = r.own;
      above = λ x low edge. r.above x low (dominates→pushed x j edge);
      touched = elim r.touched [
        | inl first ↦ inl first
        | inr (x, k, low, edge, q, next) ↦ inr (x, k, low, pushed→dominates x j edge, q, next)
      ];
    }

-- A ranking of the evaluations by dominance.
pub record SortsLayouts {W : Type 0} ⦃D : Double W⦄ (values : List (Evaluation W))
    (r : Result (RankedPopulation W)) : Type 0 where
  pub result : RankedPopulation W
  pub returned : r ≡ ok result
  pub long : length result.rank ≡ length values
  pub ranked :
      (j : ℕ)
      → j < length values
      → IsRanked
          (λ i j. bi_dominates (objectives_at values i) (objectives_at values j))
          (length values)
          result.rank
          j

-- With doubles whose `<` splits at every number, and evaluations whose energy and cable cost are no
-- NaN, `bi_rank_and_crowding` returns: the fronts are no more than the layouts. Every layout has a
-- rank. A layout that dominates another has a lower rank, and a layout whose rank is above 0 is
-- dominated by one of the rank right below its own.
pub bi_rank_and_crowding-SortsLayouts :
    {W : Type 0} ⦃D : Double W⦄ (splits : SplitsNumbers D) (values : List (Evaluation W))
    → All (λ v. Numbers (tmoea_objectives v)) values
    → SortsLayouts values (bi_rank_and_crowding values)
unfolding bi_rank_and_crowding
bi_rank_and_crowding-SortsLayouts splits values numbers =
    let s =
      ranks_of-Sorts (pushed values) (length values) (pushed_irrefl splits values numbers)
        (pushed_trans splits values numbers) in
    record {
      result = record {
        rank = s.rank;
        crowding = crowd values s.fronts (replicate (length values) nought);
      };
      returned = rw s.returned refl;
      long = s.long;
      ranked = λ j h. by_dominance splits values numbers s.rank j (s.ranked j h);
    }
