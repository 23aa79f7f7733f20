-- ===== src/Fode/Repair/Fill.antt =====
-- The filling loop of `repair_population` ends, with enough cells placed.
use fode_hpc_wflop.Base.{
  ℕ, ◌^◌, if◌then◌else◌, zero, suc, ◌+◌, ◌-◌, ◌*◌, ◌≤◌, ◌<◌, ◌≡◌, refl, Bool, false, List, length,
  get_or, arith, Result, ok, ltb, Bool-cases, inl, inr, ltb→lt,
}
use fode_hpc_wflop.Rng.Generator.{Generator, key}
use fode_hpc_wflop.Rng.{u64}
use fode_hpc_wflop.Fode.Repair.{Filling, draw_limit, draw_cell, fall_back, fill, occupy_first}
use fode_hpc_wflop.Fode.Grid.Masks.{
  count_marks, Covers, Covers-length, Covers-set, count_marks-set, Occupied, occupy_first-Occupied,
}

-- The marks cover the blocked cells, and `placed` counts the others.
pub record IsFilling (blocked : List Bool) (s : Filling) : Type 0 where
  pub covers : Covers blocked s.occupied
  pub counted : s.placed + count_marks blocked ≡ count_marks s.occupied

-- What the loop leaves: the blocked cells still marked, and room for the whole layout.
pub record Filled (blocked : List Bool) (dimension : ℕ) (r : Result Filling) : Type 0 where
  pub result : Filling
  pub returned : r ≡ ok result
  pub filling : IsFilling blocked result
  pub enough : dimension ≤ result.placed

module _ (grid : ℕ) where
  draw_limit-lt : draw_limit grid < 2 ^ 64 - 1
  unfolding draw_limit
  draw_limit-lt = ground arith

  -- The rounds from a value of `draw` before one that passes the limit.
  unfoldable pub gap : ℕ → ℕ
  gap draw = if ltb draw (2 ^ 64 - 1) then draw_limit grid - draw else draw_limit grid + 1

  pub gap-lt : (draw : ℕ) → gap draw < 2 ^ 64
  unfolding gap
  gap-lt draw = ground (arith, draw_limit-lt)

  gap-next :
      (draw : ℕ)
      → draw < 2 ^ 64
      → ltb (draw_limit grid) (u64 (draw + 1)) ≡ false
      → gap (u64 (draw + 1)) < gap draw
  unfolding gap
  gap-next draw small before = ground (arith, draw_limit-lt)

module _ (rng : Generator) (grid generation phase individual : ℕ) where
  abbrev pub drawn : Filling → Filling
  drawn = draw_cell rng grid generation phase individual

  abbrev fallen : Filling → Filling
  fallen = fall_back rng grid generation phase individual

  pub record Drawn (blocked : List Bool) (s d : Filling) : Type 0 where
    pub filling : IsFilling blocked d
    pub next : d.draw ≡ s.draw + 1
    pub grown : s.placed ≤ d.placed

  pub drawn-Drawn :
      (blocked : List Bool) (s : Filling)
      → 0 < grid
      → length blocked ≡ grid
      → IsFilling blocked s
      → Drawn blocked s (drawn s)
  unfolding draw_cell
  drawn-Drawn blocked s pos_grid long v = elim (Bool-cases (get_or s.occupied (cell - 1) false)) [
    | inl taken ↦ rw taken (record {
      filling = record { covers = v.covers; counted = v.counted };
      next = refl;
      grown = omega arith;
    })
    | inr free ↦ rw free (record {
      filling = record {
        covers = Covers-set blocked s.occupied (cell - 1) v.covers;
        counted = omega (arith, v.counted, count_marks-set s.occupied (cell - 1) inside free);
      };
      next = refl;
      grown = omega arith;
    })
  ]
    where
      cell : ℕ
      cell = rng.integer 1 (grid + 1) (key generation phase individual 0 s.draw)

      inside : cell - 1 < length s.occupied
      inside = omega (
        arith,
        rng.integer_range 1 (grid + 1) (key generation phase individual 0 s.draw) (omega arith),
        Covers-length blocked s.occupied v.covers,
      )

  abbrev left : ℕ → Filling → ℕ
  left dimension s = 2 ^ 64 * (dimension - s.placed) + gap grid s.draw

  record Round (blocked : List Bool) (dimension : ℕ) (s r : Filling) : Type 0 where
    filling : IsFilling blocked r
    small : r.draw < 2 ^ 64
    less : left dimension r < left dimension s

  fallen-Round :
      (blocked : List Bool) (dimension : ℕ) (s d : Filling)
      → dimension + count_marks blocked ≤ length blocked
      → s.placed < dimension
      → s.draw < 2 ^ 64
      → Drawn blocked s d
      → Round blocked dimension s (fallen d)
  unfolding fall_back
  fallen-Round blocked dimension s d room more low h =
      elim (Bool-cases (ltb (draw_limit grid) (u64 d.draw))) [
        | inl past ↦ rw past (record {
          filling = record {
            covers = first.covers;
            counted = omega (arith, first.counted, h.filling.counted);
          };
          small = omega arith;
          less = elim (Bool-cases (occupy_first d.occupied).1) [
            | inl found ↦ rw found (omega (arith, h.grown, gap-lt grid (u64 d.draw)))
            | inr none_free ↦ rw none_free (
                omega (
                  arith,
                  gap-lt grid (u64 d.draw),
                  first.full none_free,
                  h.filling.counted,
                  blocked_long,
                ))
          ];
        })
        | inr before ↦ rw before (record {
          filling = record { covers = h.filling.covers; counted = h.filling.counted };
          small = omega arith;
          less = omega (arith, h.grown, nearer before);
        })
      ]
    where
      first : Occupied blocked d.occupied (occupy_first d.occupied).0 (occupy_first d.occupied).1
      first = occupy_first-Occupied blocked d.occupied h.filling.covers

      blocked_long : length blocked ≡ length d.occupied
      blocked_long = Covers-length blocked d.occupied h.filling.covers

      nearer : ltb (draw_limit grid) (u64 d.draw) ≡ false → gap grid (u64 d.draw) < gap grid s.draw
      nearer e = rw h.next (gap-next grid s.draw low (rw h.next at e))

  -- From marks that cover the blocked cells and a right count of the placed ones, the filling loop
  -- of `repair_population` ends within 2 ^ 64 rounds for each missing turbine and the values of
  -- `draw` up to the limit, if the grid has room. It leaves at least as many placed cells as turbines,
  -- with the blocked cells still marked.
  pub fill-Filled :
      (blocked : List Bool) (dimension fuel : ℕ) (s : Filling)
      → 0 < grid
      → length blocked ≡ grid
      → dimension + count_marks blocked ≤ length blocked
      → IsFilling blocked s
      → s.draw < 2 ^ 64
      → left dimension s < fuel
      → Filled blocked dimension (fill rng grid generation phase individual fuel dimension s)
  unfolding fill
  fill-Filled blocked dimension zero s pos_grid long room v low m = absurd (omega arith)
  fill-Filled blocked dimension (suc fuel) s pos_grid long room v low m =
      elim (Bool-cases (ltb s.placed dimension)) [
        | inl more ↦
            let r =
              fallen-Round blocked dimension s (drawn s) room (ltb→lt _ _ more) low
                (drawn-Drawn blocked s pos_grid long v) in
            rw more (
              fill-Filled blocked dimension fuel (fallen (drawn s)) pos_grid long room r.filling
                r.small (omega (arith, r.less)))
        | inr done ↦
            rw done (record { result = s; returned = refl; filling = v; enough = ground arith })
      ]
