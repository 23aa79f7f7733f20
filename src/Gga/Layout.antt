-- ===== src/Gga/Layout.antt =====
-- `random_layout`, `random_ordered_layout`, `repair` and `repair_ordered`. The loops that draw a
-- member have `rounds` as their fuel; the program has no limit.
pub mod Draws
pub mod Ordered
pub mod Unique
pub mod Sorted
pub mod Initial
mod Examples
use fode_hpc_wflop.Base.{
  ℕ, zero, suc, ◌+◌, ◌-◌, ◌*◌, ℤ, pos, pos_part, ltb_ℤ, eqb_ℤ, Bool, true, false, not, ◌&&◌, ◌||◌,
  List, [], ◌∷◌, ◌++◌, map, ltb, if◌then◌else◌, length, take, get_or, set, range, replicate,
  keep_if, erase_at, Result, ok, err, out_of_fuel, ◌>>=◌,
}
use fode_hpc_wflop.Base.Sort.{stable_sort}
use fode_hpc_wflop.Rng.Generator.{Generator, key}
use fode_hpc_wflop.Fode.Initialize.{key_before, keyed_from, selected}

-- The loop over the candidates, the sort and the cut are those of the initial population, with
-- every candidate available.
unfoldable pub random_layout : Generator → ℕ → ℕ → ℕ → ℕ → List ℕ
random_layout rng candidates turbine_count phase individual =
    selected rng phase (range candidates) turbine_count individual

unfoldable pub random_ordered_layout : Generator → ℕ → ℕ → ℕ → ℕ → List ℕ
random_ordered_layout rng candidates turbine_count phase individual =
    take turbine_count (
      map (λ k. k.1)
        (stable_sort key_before (keyed_from rng phase individual 0 (range candidates))))

-- `std::unique` behind a kept value, and from the start.
unique_after : ℤ → List ℤ → List ℤ
unique_after kept [] = []
unique_after kept (value ∷ layout) =
    let drop_it = unique_after kept layout in
    let keep_it = value ∷ unique_after value layout in if eqb_ℤ kept value then drop_it else keep_it

unfoldable pub unique : List ℤ → List ℤ
unfolding unique_after
unique [] = []
unique (value ∷ layout) = value ∷ unique_after value layout

unfoldable pub in_range : ℕ → ℤ → Bool
in_range candidates value = not (ltb_ℤ value (pos 0) || not (ltb_ℤ value (pos candidates)))

unfoldable pub mark_members : List ℕ → List Bool → List Bool
mark_members [] used = used
mark_members (value ∷ layout) used = mark_members layout (set used value true)

pub record Drawing : Type 0 where
  pub used : List Bool
  pub layout : List ℕ
  pub draw : ℕ

module _ (rng : Generator) (candidates generation phase individual : ℕ) where
  -- The body of `while (size < required)`.
  unfoldable pub draw_member : Drawing → Drawing
  draw_member s =
      let value = rng.integer 0 candidates (key generation phase individual 0 s.draw) in
      if get_or s.used value false then record s { draw = s.draw + 1 } else record {
        used = set s.used value true;
        layout = s.layout ++ value ∷ [];
        draw = s.draw + 1;
      }

  unfoldable pub draw_members : ℕ → ℕ → Drawing → Result Drawing
  draw_members zero required s = if ltb (length s.layout) required then err out_of_fuel else ok s
  draw_members (suc fuel) required s =
      let rest = draw_members fuel required (draw_member s) in
      if ltb (length s.layout) required then rest else ok s

  -- `while (size > required)`: so many members too many are taken out, at drawn positions.
  unfoldable pub drop_members : ℕ → List ℕ → ℕ → List ℕ
  drop_members zero layout draw = layout
  drop_members (suc surplus) layout draw =
      drop_members surplus
        (erase_at layout
          (rng.integer 0 (length layout) (key generation (phase + 1) individual 0 draw)))
        (draw + 1)

  module _ (rounds required : ℕ) where
    unfoldable pub repair : List ℤ → Result (List ℕ)
    unfolding unique in_range
    repair layout = do
      let valid = map pos_part (keep_if (in_range candidates) (unique (stable_sort ltb_ℤ layout)))
      drawn ← draw_members rounds required (record {
        used = mark_members valid (replicate candidates false);
        layout = valid;
        draw = 0;
      })
      ok (stable_sort ltb (drop_members (length drawn.layout - required) drawn.layout drawn.draw))

    -- The loop of `repair_ordered` over the values.
    unfoldable pub take_new : List ℤ → List Bool → List ℕ → Drawing
    take_new [] used repaired = record { used = used; layout = repaired; draw = 0 }
    take_new (value ∷ layout) used repaired =
        let fits =
          in_range candidates value
          && not (get_or used (pos_part value) false)
          && ltb (length repaired) required in
        take_new layout (if fits then set used (pos_part value) true else used)
          (if fits then repaired ++ pos_part value ∷ [] else repaired)

    unfoldable pub repair_ordered : List ℤ → Result (List ℕ)
    unfolding take_new in_range
    repair_ordered layout = do
      drawn ← draw_members rounds required (take_new layout (replicate candidates false) [])
      ok drawn.layout
