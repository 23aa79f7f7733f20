-- ===== src/Farm/Detail.antt =====
-- `EvaluationDetail::TotalAndPerTurbine` of hpc/fode_cpp/src/evaluator.cpp: the powers of a layout's
-- turbines in ascending order, and their cells in the same order.
pub mod Sums
mod Examples
use fode_hpc_wflop.Base.{ℤ, ℕ, Bool, List, map, length, get_or, range}
use fode_hpc_wflop.Base.Sort.{stable_sort}
use fode_hpc_wflop.Case.{CaseData}
use fode_hpc_wflop.Double.{Double, nought}
use fode_hpc_wflop.Farm.Fused.{accumulated, layout_fitness}

pub record LayoutDetail (W : Type 0) : Type 0 where
  pub fitness : W
  pub accumulated_turbine_power_kw : List W
  pub turbine_position_order_1based : List ℤ

module _ {W : Type 0} ⦃D : Double W⦄ where
  -- `std::iota`, then `std::stable_sort` by power
  unfoldable pub power_order : List W → List ℕ
  power_order power =
      stable_sort (λ l r. D.lt (get_or power l nought) (get_or power r nought))
        (range (length power))

  unfoldable pub layout_detail : CaseData W → List W → LayoutDetail W
  layout_detail farm indices =
      let power = accumulated farm indices in
      record {
        fitness = layout_fitness farm indices;
        accumulated_turbine_power_kw =
            map (λ turbine. get_or power turbine nought) (power_order power);
        turbine_position_order_1based =
            map (λ turbine. D.round_int (get_or indices turbine nought)) (power_order power);
      }
