-- ===== src/Rng/Examples.antt =====
-- The generator's theorems at concrete words and keys.
use fode_hpc_wflop.Base.{◌+◌, ◌≤◌, ◌<◌, ◌≡◌, refl, arith}
use fode_hpc_wflop.Rng.{CounterRng, Key, integer}
use fode_hpc_wflop.Rng.Bounds.{integer_range}
use fode_hpc_wflop.Rng.Distinct.{uniform_bits-draw_injective}

abbrev seeded : CounterRng
seeded = record { seed = 42 }

abbrev third_draw : Key
third_draw = record { generation = 1; phase = 400; individual = 7; coordinate = 0; draw = 3 }

integer_range_example : (5 ≤ integer seeded 5 12 third_draw) × (integer seeded 5 12 third_draw < 12)
integer_range_example = integer_range seeded 5 12 third_draw (omega arith)

uniform_bits-draw_injective_example : 1 + 2 ≡ 3
uniform_bits-draw_injective_example =
    uniform_bits-draw_injective seeded third_draw (1 + 2) 3 (omega arith) (omega arith)
      (omega arith) refl
