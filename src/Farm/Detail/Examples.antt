-- ===== src/Farm/Detail/Examples.antt =====
-- The powers of a layout of the small case.
use fode_hpc_wflop.Base.{◌≡◌}
use fode_hpc_wflop.Double.{nought, sum_from}
use fode_hpc_wflop.Double.Whole.{whole}
use fode_hpc_wflop.Fode.Fixture.{farm, layout_row}
use fode_hpc_wflop.Farm.Detail.{layout_detail}
use fode_hpc_wflop.Farm.Detail.Sums.{sum-layout_detail}

sum-layout_detail_example :
    sum_from nought (layout_detail farm layout_row).accumulated_turbine_power_kw
    ≡ (layout_detail farm layout_row).fitness
sum-layout_detail_example = sum-layout_detail farm layout_row
