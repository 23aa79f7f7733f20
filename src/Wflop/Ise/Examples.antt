-- ===== src/Wflop/Ise/Examples.antt =====
-- A run of `optimize_ise` on the small case.
use fode_hpc_wflop.Base.{ℤ, pos, negsuc, List, [], ◌∷◌, ◌-◌, ◌≡◌, true, refl, arith}
use fode_hpc_wflop.Base.Sort.{stable_sort}
use fode_hpc_wflop.Double.Whole.{whole, whole-IsExact}
use fode_hpc_wflop.Farm.Wake.{turbine_power, deficiency}
use fode_hpc_wflop.Farm.Fused.{layout_fitness}
use fode_hpc_wflop.Rng.Generator.{Reaches}
use fode_hpc_wflop.Fode.Fixture.{farm, farm-IsCase, in_order}
use fode_hpc_wflop.Fode.Grid.{free_cells}
use fode_hpc_wflop.Fode.Initialize.{selected}
use fode_hpc_wflop.Wflop.Dispatch.{RunConfig}
use fode_hpc_wflop.Wflop.Runtime.{available_cells, blocked_mask, block_cells}
use fode_hpc_wflop.Fode.Grid.{ReturnsPopulation}
use fode_hpc_wflop.Wflop.Population.{initialize_population, repair_population}
use fode_hpc_wflop.Wflop.Population.Feasible.{repair_population-Repairs}
use fode_hpc_wflop.Wflop.Validate.Fode.{Reported}
use fode_hpc_wflop.Wflop.Ise.{optimize_ise}
use fode_hpc_wflop.Wflop.Ise.Reported.{first_row, optimize_ise-Reported}

abbrev config : RunConfig
config = record {
  algorithm_id = "ise";
  problem_id = "fode_e0_common";
  seed = 1;
  physical_fes_budget = 12;
  workers = pos 2;
  sugga_model_root = "";
}

in_order-Reaches : Reaches in_order 6 1 7
in_order-Reaches = record {
  reach = λ generation phase row cell low high. (cell - 1, omega arith, ground arith);
}

first_power : whole.lt whole.minus_infinity (layout_fitness farm (first_row in_order farm)) ≡ true
unfolding layout_fitness initialize_population available_cells blocked_mask block_cells free_cells
    selected stable_sort turbine_power deficiency
first_power = refl

optimize_ise-Reported_example :
    Reported farm config (optimize_ise (λ rng. in_order) 6 farm config (pos 3) (pos 2))
optimize_ise-Reported_example =
    optimize_ise-Reported whole-IsExact (λ rng. in_order) 6 farm farm-IsCase config in_order-Reaches
      (pos 3) (pos 2) (omega arith) refl refl refl first_power

-- A coordinate twice, then two that are not on the grid.
abbrev broken : List (List ℤ)
broken = (pos 3 ∷ pos 3 ∷ []) ∷ (pos 9 ∷ negsuc 4 ∷ []) ∷ []

repair_population-Repairs_example :
    ReturnsPopulation farm 2 (repair_population in_order 6 farm 1 113 broken)
repair_population-Repairs_example =
    repair_population-Repairs in_order farm farm-IsCase 6 in_order-Reaches 1 113 broken
      (refl, (refl, tt))
