-- ===== src/Wflop/Validate/Examples.antt =====
-- The runs of FODE on the small case, judged by `validate_result` of hpc/wflop_cpp/src/main.cpp.
use fode_hpc_wflop.Base.{ℤ, pos, refl, arith}
use fode_hpc_wflop.Double.Whole.{whole, whole-IsExact, whole-HasSigns}
use fode_hpc_wflop.Fode.Fixture.{farm, farm-IsCase, in_order, in_order-Accepts}
use fode_hpc_wflop.Wflop.Dispatch.{RunConfig}
use fode_hpc_wflop.Wflop.Validate.{Seconds, convert_fode}
use fode_hpc_wflop.Wflop.Validate.Fode.{
  Reported, Overspent, convert_fode-Reported, convert_fode-Overspent,
}

abbrev config : RunConfig
config = record {
  algorithm_id = "fode";
  problem_id = "fode_e0_common";
  seed = 1;
  physical_fes_budget = 100;
  workers = pos 2;
  sugga_model_root = "";
}

abbrev seconds : Seconds ℤ
seconds = record { total = pos 3; evaluator = pos 2; algorithm = pos 1 }

convert_fode-Reported_example : Reported farm config (convert_fode in_order 3 farm config seconds)
convert_fode-Reported_example =
    convert_fode-Reported whole-IsExact whole-HasSigns in_order 3 in_order-Accepts farm farm-IsCase
      config seconds (omega arith) refl refl

abbrev thrifty : RunConfig
thrifty = record config { physical_fes_budget = 10 }

convert_fode-Overspent_example :
    Overspent farm thrifty (convert_fode in_order 3 farm thrifty seconds)
convert_fode-Overspent_example =
    convert_fode-Overspent whole-IsExact whole-HasSigns in_order 3 in_order-Accepts farm farm-IsCase
      thrifty seconds (omega arith) (omega arith) refl refl
