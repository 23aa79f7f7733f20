-- ===== src/Gga/Cables/Examples.antt =====
-- The cables of three turbines on a line, with the substation beside the second.
use fode_hpc_wflop.Base.{ℕ, ℤ, pos, List, [], ◌∷◌, refl}
use fode_hpc_wflop.Double.Whole.{whole}
use fode_hpc_wflop.Gga.Cables.{Point, distance, group_tree}
use fode_hpc_wflop.Gga.Cables.Spanning.{Spans, group_tree-Spans}

abbrev place : ℕ → Point ℤ
place x = record { x = pos x; y = pos 0 }

abbrev line : List (Point ℤ)
line = place 0 ∷ place 900 ∷ place 400 ∷ []

group_tree-Spans_example : Spans (7 ∷ 4 ∷ 9 ∷ []) (group_tree (7 ∷ 4 ∷ 9 ∷ []) line (place 800))
unfolding distance
group_tree-Spans_example =
    group_tree-Spans (7 ∷ 4 ∷ 9 ∷ []) line (place 800) refl refl
      ((refl, (refl, (refl, tt))), ((refl, (refl, (refl, tt))), ((refl, (refl, (refl, tt))), tt)))
