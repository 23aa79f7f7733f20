-- ===== src/Gga/Ranking/Examples.antt =====
-- The ranking of three layouts.
use fode_hpc_wflop.Base.{ℤ, pos, ℕ, List, [], ◌∷◌, ◌≡◌, refl, arith}
use fode_hpc_wflop.Double.Whole.{whole}
use fode_hpc_wflop.Double.Laws.{SplitsNumbers}
use fode_hpc_wflop.Gga.Ranking.{Evaluation, bi_rank_and_crowding, bi_tournament, RankedPopulation}
use fode_hpc_wflop.Gga.Ranking.Ranked.{SortsLayouts, bi_rank_and_crowding-SortsLayouts}

whole-SplitsNumbers : SplitsNumbers whole
whole-SplitsNumbers = record { lt_split = λ x y z p q r h. ground arith }

abbrev layout_of : ℕ → ℕ → Evaluation ℤ
layout_of energy cost = record {
  lcoe = pos 0;
  capacity_factor = pos 0;
  aep_kwh = pos energy;
  cable_cost = pos cost;
}

abbrev layouts : List (Evaluation ℤ)
layouts = layout_of 5 7 ∷ layout_of 6 6 ∷ layout_of 4 5 ∷ []

bi_rank_and_crowding-SortsLayouts_example : SortsLayouts layouts (bi_rank_and_crowding layouts)
bi_rank_and_crowding-SortsLayouts_example =
    bi_rank_and_crowding-SortsLayouts whole-SplitsNumbers layouts
      ((refl, refl), ((refl, refl), ((refl, refl), tt)))

-- The first layout is dominated by the second, the third is not.
abbrev ranked : RankedPopulation ℤ
ranked = record {
  rank = pos 1 ∷ pos 0 ∷ pos 0 ∷ [];
  crowding = whole.infinity ∷ whole.infinity ∷ whole.infinity ∷ [];
}

tournament_of : bi_tournament 0 2 ranked ≡ 2
unfolding bi_tournament
tournament_of = refl
