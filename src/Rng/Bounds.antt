-- ===== src/Rng/Bounds.antt =====
-- The ranges of the generator's draws.
use Prim.Native.Nat.{bit_xor}
use native.Mathlib.Nat.{div-le_self}
use fode_hpc_wflop.Base.{ℕ, ◌/◌, ◌^◌, ◌≤◌, ◌<◌, arith}
use fode_hpc_wflop.Base.Bits.{bit_xor-lt}
use fode_hpc_wflop.Rng.{
  CounterRng, Key, first_mix, second_mix, splitmix64, mix_into, uniform, integer,
}

pub first_mix-lt : (value : ℕ) → first_mix value < 2 ^ 64
unfolding first_mix
first_mix-lt value = omega arith

pub second_mix-lt : (value : ℕ) → second_mix value < 2 ^ 64
unfolding second_mix
second_mix-lt value = omega arith

pub xorshift-lt : (x k : ℕ) → x < 2 ^ 64 → bit_xor x (x / 2 ^ k) < 2 ^ 64
xorshift-lt x k h = bit_xor-lt 64 x (x / 2 ^ k) h (omega (arith, div-le_self x (2 ^ k)))

pub splitmix64-lt : (value : ℕ) → splitmix64 value < 2 ^ 64
unfolding splitmix64
splitmix64-lt value = xorshift-lt _ 31 (second_mix-lt _)

pub mix_into-lt : (state value : ℕ) → state < 2 ^ 64 → mix_into state value < 2 ^ 64
unfolding mix_into
mix_into-lt state value h = bit_xor-lt 64 state _ h (splitmix64-lt _)

-- For every seed and key, `uniform` returns a double below 1: its numerator over 2 ^ 53 is below 2
-- ^ 53.
pub uniform_lt : (rng : CounterRng) (key : Key) → uniform rng key < 2 ^ 53
unfolding uniform
uniform_lt rng key = omega (arith, splitmix64-lt _)

-- For every seed and key, `integer` returns a number of its half-open range when that is not empty,
-- whatever the rounding of the product does.
pub integer_range :
    (rng : CounterRng) (low high_exclusive : ℕ) (key : Key)
    → low < high_exclusive
    → (low ≤ integer rng low high_exclusive key)
      × (integer rng low high_exclusive key < high_exclusive)
unfolding integer
integer_range rng low high_exclusive key h = ground arith
