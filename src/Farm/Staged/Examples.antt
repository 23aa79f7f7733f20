-- ===== src/Farm/Staged/Examples.antt =====
-- Two layouts of the small case, with the tasks of a stage out of order.
use fode_hpc_wflop.Base.{
  ◌≡◌, ℕ, ℤ, zero, suc, ◌<◌, refl, inl, inr, [], ◌∷◌, map, length, get_or, arith,
}
use fode_hpc_wflop.Double.Whole.{whole}
use fode_hpc_wflop.Fode.Grid.{Matrix}
use fode_hpc_wflop.Fode.Fixture.{farm, layout_row}
use fode_hpc_wflop.Farm.Fused.{layout_fitness}
use fode_hpc_wflop.Farm.Staged.{evaluate_staged}
use fode_hpc_wflop.Farm.Staged.Order.{Covers, Member}
use fode_hpc_wflop.Farm.Staged.Fusion.{evaluate_staged-layout_fitness}

abbrev layouts : Matrix ℤ
layouts = layout_row ∷ layout_row ∷ []

long : (row : ℕ) → row < length layouts → length (get_or layouts row []) ≡ farm.turbine_count
long zero h = refl
long (suc zero) h = refl
long (suc (suc row)) h = absurd (omega (arith, h))

both : (i : ℕ) → i < 2 → Member i (1 ∷ 0 ∷ [])
both zero h = inr (inl refl)
both (suc zero) h = inl refl
both (suc (suc i)) h = absurd (omega (arith, h))

backwards : Covers 2 (1 ∷ 0 ∷ [])
backwards = record { inside = (omega arith, (omega arith, tt)); complete = both }

all_items : (i : ℕ) → i < 4 → Member i (3 ∷ 1 ∷ 0 ∷ 2 ∷ [])
all_items zero h = inr (inr (inl refl))
all_items (suc zero) h = inr (inl refl)
all_items (suc (suc zero)) h = inr (inr (inr (inl refl)))
all_items (suc (suc (suc zero))) h = inl refl
all_items (suc (suc (suc (suc i)))) h = absurd (omega (arith, h))

mixed : Covers 4 (3 ∷ 1 ∷ 0 ∷ 2 ∷ [])
mixed = record {
  inside = (omega arith, (omega arith, (omega arith, (omega arith, tt))));
  complete = all_items;
}

evaluate_staged-layout_fitness_example :
    evaluate_staged farm layouts
      (1 ∷ 0 ∷ [])
      (1 ∷ 0 ∷ [])
      (1 ∷ 0 ∷ [])
      (3 ∷ 1 ∷ 0 ∷ 2 ∷ [])
      (1 ∷ 0 ∷ [])
    ≡ map (layout_fitness farm) layouts
evaluate_staged-layout_fitness_example =
    evaluate_staged-layout_fitness farm layouts (1 ∷ 0 ∷ []) (1 ∷ 0 ∷ []) (1 ∷ 0 ∷ [])
      (3 ∷ 1 ∷ 0 ∷ 2 ∷ []) (1 ∷ 0 ∷ []) long backwards backwards backwards mixed backwards
