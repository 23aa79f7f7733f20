-- ===== src/Wflop/Population/Filled.antt =====
-- The filling loop of the repair in hpc/wflop_cpp/src/algorithms.cpp ends when its draws reach every
-- cell within the fuel.
use fode_hpc_wflop.Base.{
  ℕ, zero, suc, ◌+◌, ◌-◌, ◌≤◌, ◌<◌, ◌≡◌, refl, ◌∙◌, Bool, true, false, List, [], ◌∷◌, length, set,
  get_or, Bool-cases, inl, inr, ltb, ltb→lt, get_or-set_self, arith,
}
use fode_hpc_wflop.Rng.Generator.{Generator, Reaches, key}
use fode_hpc_wflop.Fode.Grid.Masks.{count_marks, Covers-length}
use fode_hpc_wflop.Fode.Repair.{Filling, draw_cell}
use fode_hpc_wflop.Fode.Repair.Fill.{IsFilling, Filled, drawn-Drawn}
use fode_hpc_wflop.Wflop.Population.{draw_cells}

pub full_marks :
    (os : List Bool)
    → ((i : ℕ) → i < length os → get_or os i false ≡ true)
    → count_marks os ≡ length os
full_marks [] h = refl
full_marks (o ∷ os) h =
    let first : o ≡ true = h 0 (omega arith) in
    ground (arith, full_marks os (λ i k. h (suc i) (omega arith)))

pub set_stays :
    (os : List Bool) (i j : ℕ) → get_or os j false ≡ true → get_or (set os i true) j false ≡ true
set_stays [] i j e = e
set_stays (o ∷ os) zero zero e = refl
set_stays (o ∷ os) zero (suc j) e = e
set_stays (o ∷ os) (suc i) zero e = e
set_stays (o ∷ os) (suc i) (suc j) e = set_stays os i j e

module _ (rng : Generator) (grid generation phase row : ℕ) where
  abbrev cell_of : ℕ → ℕ
  cell_of draw = rng.integer 1 (grid + 1) (key generation phase row 0 draw)

  -- The cells that have been drawn are occupied.
  abbrev pub Reached : Filling → Type 0
  Reached s = (draw : ℕ) → draw < s.draw → get_or s.occupied (cell_of draw - 1) false ≡ true

  abbrev drawn : Filling → Filling
  drawn = draw_cell rng grid generation phase row

  drawn_stays :
      (s : Filling) (j : ℕ)
      → get_or s.occupied j false ≡ true
      → get_or (drawn s).occupied j false ≡ true
  unfolding draw_cell
  drawn_stays s j e = ground (arith, e, set_stays s.occupied (cell_of s.draw - 1) j)

  drawn_now :
      (s : Filling)
      → 0 < grid
      → length s.occupied ≡ grid
      → get_or (drawn s).occupied (cell_of s.draw - 1) false ≡ true
  unfolding draw_cell
  drawn_now s some_cells long =
      let inside : cell_of s.draw - 1 < length s.occupied =
        omega (
          arith,
          rng.integer_range 1 (grid + 1) (key generation phase row 0 s.draw) (omega arith),
        ) in
      ground (arith, get_or-set_self s.occupied (cell_of s.draw - 1) true false inside)

  drawn-Reached :
      (s : Filling)
      → 0 < grid
      → length s.occupied ≡ grid
      → (drawn s).draw ≡ s.draw + 1
      → Reached s
      → Reached (drawn s)
  drawn-Reached s some_cells long next h draw less = elim (Bool-cases (ltb draw s.draw)) [
    | inl before ↦ drawn_stays s (cell_of draw - 1) (h draw (ltb→lt _ _ before))
    | inr now ↦ let e : draw ≡ s.draw = ground arith in rw e (drawn_now s some_cells long)
  ]

  module _ (rounds : ℕ) (reaches : Reaches rng rounds 1 (grid + 1)) (blocked : List Bool)
      (dimension : ℕ) (some_cells : 0 < grid) (long : length blocked ≡ grid)
      (room : dimension + count_marks blocked ≤ length blocked) where
    -- When all draws are made, every cell is occupied.
    all_reached :
        (s : Filling)
        → length s.occupied ≡ grid
        → s.draw ≡ rounds
        → Reached s
        → count_marks s.occupied ≡ grid
    all_reached s full at_end h =
        full_marks s.occupied (λ i k.
          let (draw, within, e) =
            reaches.reach generation phase row (suc i) (omega arith) (omega arith) in
          let hit : get_or s.occupied (cell_of draw - 1) false ≡ true = h draw (omega arith) in
          let at_i : cell_of draw - 1 ≡ i = omega (arith, e) in rw at_i at hit)
        ∙ full

    pub draw_cells-Filled :
        (fuel : ℕ) (s : Filling)
        → s.draw + fuel ≡ rounds
        → IsFilling blocked s
        → Reached s
        → Filled blocked dimension (draw_cells rng grid generation phase row fuel dimension s)
    unfolding draw_cells
    draw_cells-Filled zero s at_end v h =
        let full = Covers-length blocked s.occupied v.covers in
        let all = all_reached s (omega arith) (omega arith) h in
        let done : ltb s.placed dimension ≡ false = ground (arith, v.counted) in
        rw done (record { result = s; returned = refl; filling = v; enough = ground arith })
    draw_cells-Filled (suc fuel) s at_end v h = elim (Bool-cases (ltb s.placed dimension)) [
      | inl more ↦
          let d = drawn-Drawn rng grid generation phase row blocked s some_cells long v in
          let full = Covers-length blocked s.occupied v.covers in
          rw more (
            draw_cells-Filled fuel (drawn s) (omega (arith, d.next)) d.filling
              (drawn-Reached s some_cells (omega arith) d.next h))
      | inr done ↦
          rw done (record { result = s; returned = refl; filling = v; enough = ground arith })
    ]
