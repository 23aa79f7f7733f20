-- ===== src/Gga/Layout/Examples.antt =====
-- The repairs on four candidates, with a generator that draws in order.
use fode_hpc_wflop.Base.{ℤ, pos, negsuc, List, [], ◌∷◌, ok, ◌≡◌, refl, arith}
use fode_hpc_wflop.Rng.Generator.{Reaches}
use fode_hpc_wflop.Fode.Fixture.{in_order}
use fode_hpc_wflop.Gga.Layout.{repair, repair_ordered, random_layout, random_ordered_layout}
use fode_hpc_wflop.Gga.Layout.Initial.{random_layout-Placed}
use fode_hpc_wflop.Gga.Layout.Ordered.{Placed, repair_ordered-Placed, repair_ordered-placed}
use fode_hpc_wflop.Gga.Layout.Sorted.{Ascending, repair-Ascending}

in_order-Reaches : Reaches in_order 4 0 4
in_order-Reaches = record {
  reach = λ generation phase individual value low high. (value, omega arith, ground arith);
}

-- A site twice, one off the list, one below 0.
abbrev broken : List ℤ
broken = pos 2 ∷ pos 9 ∷ pos 2 ∷ negsuc 0 ∷ []

repair_ordered-Placed_example : Placed 4 3 (repair_ordered in_order 4 1 20 0 4 3 broken)
repair_ordered-Placed_example =
    repair_ordered-Placed in_order 4 1 20 0 4 3 broken in_order-Reaches (omega arith) (omega arith)

repair-Ascending_example : Ascending 4 3 (repair in_order 4 1 20 0 4 3 broken)
repair-Ascending_example =
    repair-Ascending in_order 4 1 20 0 4 3 broken in_order-Reaches (omega arith) (omega arith)

repair_ordered-placed_example :
    repair_ordered in_order 4 1 20 0 4 3 (pos 3 ∷ pos 0 ∷ pos 1 ∷ []) ≡ ok (3 ∷ 0 ∷ 1 ∷ [])
repair_ordered-placed_example =
    repair_ordered-placed in_order 4 1 20 0 4 3 (3 ∷ 0 ∷ 1 ∷ []) refl
      (omega arith, (omega arith, (omega arith, tt)))
      ((omega arith, (omega arith, tt)), ((omega arith, tt), (tt, tt)))

random_layout-Placed_example :
    Ascending 4 3 (ok (random_layout in_order 4 3 1 0))
    × Placed 4 3 (ok (random_ordered_layout in_order 4 3 1 0))
random_layout-Placed_example = random_layout-Placed in_order 4 3 1 0 (omega arith)
