-- ===== src/Rng/Generator.antt =====
-- What the optimizers ask of the generator: the operations of `CounterRng`, with their ranges.
use fode_hpc_wflop.Base.{ℕ, ◌+◌, ◌*◌, ◌^◌, ◌≤◌, ◌<◌, ◌≡◌}
use fode_hpc_wflop.Double.{Double, ◌⊗◌, ◌⊖◌, max_double, nought}
use fode_hpc_wflop.Rng.{CounterRng, Key, uniform, integer}
use fode_hpc_wflop.Rng.Bounds.{uniform_lt, integer_range}

pub record Generator : Type 0 where
  pub uniform : Key → ℕ  -- the double that is drawn, times 2 ^ 53
  pub integer : ℕ → ℕ → Key → ℕ
  pub uniform_lt : (key : Key) → uniform key < 2 ^ 53
  pub integer_range :
      (low high : ℕ) (key : Key)
      → low < high
      → (low ≤ integer low high key) × (integer low high key < high)

-- The program's generator is one.
pub counter_generator : CounterRng → Generator
counter_generator rng = record {
  uniform = uniform rng;
  integer = integer rng;
  uniform_lt = uniform_lt rng;
  integer_range = integer_range rng;
}

abbrev pub key : ℕ → ℕ → ℕ → ℕ → ℕ → Key
key g p i c d = record { generation = g; phase = p; individual = i; coordinate = c; draw = d }

-- Within a number of rounds the draws of every loop reach each value of the range.
pub record Reaches (rng : Generator) (rounds low high : ℕ) : Type 0 where
  pub reach :
      (generation phase individual value : ℕ)
      → low ≤ value
      → value < high
      → (draw : ℕ) × (draw < rounds)
        × (rng.integer low high (key generation phase individual 0 draw) ≡ value)

module _ {W : Type 0} ⦃D : Double W⦄ (rng : Generator) where
  -- `rng.uniform(...)` as a double
  abbrev pub draw_uniform : Key → W
  draw_uniform k = D.dyadic (rng.uniform k)

  -- `normal`: two uniform draws, at the even and at the odd counter
  unfoldable pub normal : Key → W
  normal k =
      let u1 = max_double (draw_uniform (record k { draw = 2 * k.draw })) D.smallest in
      let u2 = draw_uniform (record k { draw = 2 * k.draw + 1 }) in
      D.sqrt ((nought ⊖ D.literal 20 1) ⊗ D.log u1) ⊗ D.cos (D.literal 20 1 ⊗ D.pi ⊗ u2)
