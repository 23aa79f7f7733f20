-- ===== src/Fode/Examples.antt =====
-- The theorems of the optimizer at a small case.
use fode_hpc_wflop.Base.{length, replicate, pos, ok, ◌≤◌, ◌≡◌, refl, true, [], ◌∷◌, map, arith}
use fode_hpc_wflop.Double.Whole.{whole, whole-IsExact, whole-HasSigns}
use fode_hpc_wflop.Farm.Fused.{layout_fitness}
use fode_hpc_wflop.Farm.Evaluate.{evaluate_population_hpc}
use fode_hpc_wflop.Farm.Evaluate.Feasible.{evaluate_population_hpc_ok}
use fode_hpc_wflop.Fode.Grid.{ReturnsPopulation}
use fode_hpc_wflop.Fode.Grid.Unavailable.{HasMask, unavailable_mask-HasMask}
use fode_hpc_wflop.Fode.Initialize.{initialize_population}
use fode_hpc_wflop.Fode.Initialize.Feasible.{initialize_population-Returns}
use fode_hpc_wflop.Fode.Repair.{repair_population}
use fode_hpc_wflop.Fode.Repair.Feasible.{repair_population-Returns}
use fode_hpc_wflop.Fode.Sample.{sample_all}
use fode_hpc_wflop.Fode.Sample.Whole.{SampledAll, sample_all-SampledAll}
use fode_hpc_wflop.Fode.Survivors.{survivor_rows}
use fode_hpc_wflop.Fode.Survivors.Count.{length-survivor_rows}
use fode_hpc_wflop.Fode.Generation.{generation_step}
use fode_hpc_wflop.Fode.Generation.Step.{Moved, generation_step-Moved}
use fode_hpc_wflop.Fode.Optimize.{optimize_fode_hpc}
use fode_hpc_wflop.Fode.Optimize.Exact.{Optimized, optimize_fode_hpc-Optimized}
use fode_hpc_wflop.Fode.Archive.{add_accepted, update_archive}
use fode_hpc_wflop.Fode.Archive.Capacity.{Unique, add_accepted-Unique, length-update_archive}
use fode_hpc_wflop.Fode.Accept.{track_best}
use fode_hpc_wflop.Fode.Accept.Keeps.{IsLayout, track_best-IsLayout}
use fode_hpc_wflop.Fode.Fixture.{
  in_order, farm, farm-IsCase, layout_cells, layout_cells-IsFeasible, layout_row,
  layout_row-IsLayoutRow, best, in_order-Accepts, config, early, early-IsState, other_row,
  layout_row-Unique,
}

repair_population-Returns_example :
    ReturnsPopulation farm 1 (repair_population in_order farm ((pos 2 ∷ pos 9 ∷ []) ∷ []) 1 0)
repair_population-Returns_example =
    repair_population-Returns in_order farm ((pos 2 ∷ pos 9 ∷ []) ∷ []) 1 0 farm-IsCase (refl, tt)

initialize_population-Returns_example :
    ReturnsPopulation farm 4 (initialize_population in_order 4 farm)
initialize_population-Returns_example = initialize_population-Returns in_order farm 4 farm-IsCase

unavailable_mask-HasMask_example : HasMask farm
unavailable_mask-HasMask_example = unavailable_mask-HasMask farm farm-IsCase

evaluate_population_hpc_ok_example :
    evaluate_population_hpc farm (layout_row ∷ []) 1
    ≡ ok (map (layout_fitness farm) (layout_row ∷ []))
evaluate_population_hpc_ok_example =
    evaluate_population_hpc_ok whole-IsExact farm farm-IsCase (layout_row ∷ []) 1
      (record { layouts = (layout_row-IsLayoutRow, tt); count = refl }) (omega arith)

length-survivor_rows_example : length (survivor_rows (pos 4 ∷ pos 9 ∷ pos 6 ∷ []) 2) ≡ 2
length-survivor_rows_example = length-survivor_rows (pos 4 ∷ pos 9 ∷ pos 6 ∷ []) 2 (omega arith)

track_best-IsLayout_example :
    IsLayout farm (track_best best (pos 8 ∷ []) (layout_row ∷ [])).best_layout
track_best-IsLayout_example =
    track_best-IsLayout whole-IsExact farm farm-IsCase best (pos 8 ∷ []) (layout_row ∷ [])
      (record { cells = layout_cells; spelled = refl; feasible = layout_cells-IsFeasible })
      (layout_row-IsLayoutRow, tt)

sample_all-SampledAll_example :
    SampledAll 3 4 2 0 3 (
      sample_all in_order 3 1
        (replicate 5 (pos 1))
        (replicate 5 (pos 1))
        (2 ∷ 0 ∷ 1 ∷ [])
        4
        2
        2
        0
        3)
sample_all-SampledAll_example =
    sample_all-SampledAll whole-HasSigns in_order 3 1 in_order-Accepts (replicate 5 (pos 1))
      (replicate 5 (pos 1)) (2 ∷ 0 ∷ 1 ∷ []) 4 2 2 0 3 (refl, (refl, (refl, (refl, (refl, tt)))))
      refl (omega arith) (omega arith) (omega arith)

optimize_fode_hpc-Optimized_example :
    Optimized farm config (optimize_fode_hpc in_order 3 farm config)
optimize_fode_hpc-Optimized_example =
    optimize_fode_hpc-Optimized whole-IsExact whole-HasSigns in_order 3 in_order-Accepts farm
      farm-IsCase config (omega arith) refl

generation_step-Moved_example : Moved farm 10 3 3 (generation_step in_order 3 farm 10 3 3 early)
generation_step-Moved_example =
    generation_step-Moved whole-IsExact whole-HasSigns in_order 3 in_order-Accepts farm farm-IsCase
      10 3 3 early (omega arith) early-IsState (omega arith) (omega arith)

length-update_archive_example :
    length (
      update_archive in_order
        (layout_row ∷ [])
        (other_row ∷ layout_row ∷ [])
        (true ∷ true ∷ [])
        (pos 1)
        1)
    ≤ 1
length-update_archive_example =
    length-update_archive in_order (layout_row ∷ []) (other_row ∷ layout_row ∷ [])
      (true ∷ true ∷ []) (pos 1) 1

add_accepted-Unique_example :
    Unique (add_accepted (layout_row ∷ []) (other_row ∷ layout_row ∷ []) (true ∷ true ∷ []))
add_accepted-Unique_example =
    add_accepted-Unique (layout_row ∷ []) (other_row ∷ layout_row ∷ []) (true ∷ true ∷ [])
      layout_row-Unique
