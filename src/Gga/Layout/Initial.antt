-- ===== src/Gga/Layout/Initial.antt =====
-- The layouts that the cable program draws at the start.
use fode_hpc_wflop.Base.{
  ℕ, zero, suc, ◌≤◌, ◌<◌, refl, length, range, range_from, length-range_from, All, ok, arith,
}
use fode_hpc_wflop.Base.Sort.Laws.{Climbs, Climbs-Distinct, Distinct}
use fode_hpc_wflop.Rng.Generator.{Generator}
use fode_hpc_wflop.Fode.Initialize.Feasible.{
  length-drawn, drawn-All, drawn-Distinct, length-selected, selected-All, selected-Climbs,
}
use fode_hpc_wflop.Gga.Layout.{random_layout, random_ordered_layout}
use fode_hpc_wflop.Gga.Layout.Ordered.{Placed}
use fode_hpc_wflop.Gga.Layout.Sorted.{Ascending}
use fode_hpc_wflop.Gga.Ranking.Counts.{range-below}

range_from-Climbs : (a m : ℕ) → Climbs a (range_from a m)
range_from-Climbs a zero = tt
range_from-Climbs a (suc m) = (omega arith, range_from-Climbs (suc a) m)

range_from-above : (low a m : ℕ) → low ≤ a → All (λ x. low ≤ x) (range_from a m)
range_from-above low a zero h = tt
range_from-above low a (suc m) h = (h, range_from-above low (suc a) m (omega arith))

-- For every generator, and where there are candidates enough, both initial layouts have the required
-- number of sites, all of them candidates and none twice; that of `random_layout` is in ascending
-- order.
pub random_layout-Placed :
    (rng : Generator) (candidates turbine_count phase individual : ℕ)
    → turbine_count ≤ candidates
    → Ascending candidates turbine_count
        (ok (random_layout rng candidates turbine_count phase individual))
      × Placed candidates turbine_count
          (ok (random_ordered_layout rng candidates turbine_count phase individual))
unfolding random_layout random_ordered_layout
random_layout-Placed rng candidates turbine_count phase individual room = (
  record {
    layout = _;
    returned = refl;
    complete = length-selected rng phase (range candidates) turbine_count individual enough;
    sites =
        selected-All rng phase (range candidates) turbine_count individual (λ v. v < candidates)
          inside;
    climbs =
        selected-Climbs rng phase (range candidates) turbine_count individual 0
          (range_from-above 0 0 candidates (omega arith)) different;
  },
  record {
    layout = _;
    returned = refl;
    complete = length-drawn rng phase (range candidates) turbine_count individual enough;
    sites =
        drawn-All rng phase (range candidates) turbine_count individual (λ v. v < candidates)
          inside;
    different = drawn-Distinct rng phase (range candidates) turbine_count individual different;
  },
)
  where
    enough : turbine_count ≤ length (range candidates)
    enough = omega (arith, length-range_from 0 candidates)

    inside : All (λ v. v < candidates) (range candidates)
    inside = range-below 0 candidates candidates (omega arith)

    different : Distinct (range candidates)
    different = Climbs-Distinct 0 (range candidates) (range_from-Climbs 0 candidates)
