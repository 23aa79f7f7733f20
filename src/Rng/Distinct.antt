-- ===== src/Rng/Distinct.antt =====
-- The mixing steps lose nothing: different counters give different words.
use fode_hpc_wflop.Base.{ℕ, ◌+◌, ◌^◌, ◌<◌, ◌≡◌, arith}
use fode_hpc_wflop.Base.Bits.{xorshift-injective, bit_xor-cancel_left}
use fode_hpc_wflop.Rng.{
  CounterRng, Key, u64, golden_gamma, first_mix, second_mix, splitmix64, mix_into, uniform_bits,
}
use fode_hpc_wflop.Rng.Bounds.{mix_into-lt, xorshift-lt, first_mix-lt}

first_mix-injective : (x y : ℕ) → x < 2 ^ 64 → y < 2 ^ 64 → first_mix x ≡ first_mix y → x ≡ y
unfolding first_mix
first_mix-injective x y p q e =
    xorshift-injective 29 x y (omega (arith, xorshift-lt x 30 p, xorshift-lt y 30 q))

second_mix-injective : (x y : ℕ) → x < 2 ^ 64 → y < 2 ^ 64 → second_mix x ≡ second_mix y → x ≡ y
unfolding second_mix
second_mix-injective x y p q e =
    xorshift-injective 26 x y (omega (arith, xorshift-lt x 27 p, xorshift-lt y 27 q))

-- `splitmix64` maps different 64-bit words to different words.
pub splitmix64-injective : (x y : ℕ) → x < 2 ^ 64 → y < 2 ^ 64 → splitmix64 x ≡ splitmix64 y → x ≡ y
unfolding splitmix64
splitmix64-injective x y p q e =
    let first =
      first_mix-injective (u64 (x + golden_gamma)) (u64 (y + golden_gamma)) (omega arith)
        (omega arith)
        (second_mix-injective _ _ (first_mix-lt _) (first_mix-lt _)
          (xorshift-injective 30 _ _ e)) in
    omega arith

mix_into-injective :
    (state v w : ℕ) → v < 2 ^ 64 → w < 2 ^ 64 → mix_into state v ≡ mix_into state w → v ≡ w
unfolding mix_into
mix_into-injective state v w p q e =
    let sums =
      splitmix64-injective _ _ (omega arith) (omega arith) (bit_xor-cancel_left state _ _ e) in
    omega arith

-- What `uniform` has mixed before it comes to the counter of the draw.
abbrev state : CounterRng → Key → ℕ
state rng key =
    mix_into (mix_into (mix_into (mix_into rng.seed key.generation) key.phase) key.individual)
      key.coordinate

state-lt : (rng : CounterRng) (key : Key) → rng.seed < 2 ^ 64 → state rng key < 2 ^ 64
state-lt rng key s = mix_into-lt _ _ (mix_into-lt _ _ (mix_into-lt _ _ (mix_into-lt _ _ s)))

-- Two draws of a 64-bit seed whose keys differ only in the 64-bit counter `draw` never get the same
-- 64 bits.
pub uniform_bits-draw_injective :
    (rng : CounterRng) (key : Key) (d e : ℕ)
    → rng.seed < 2 ^ 64
    → d < 2 ^ 64
    → e < 2 ^ 64
    → uniform_bits rng (record key { draw = d }) ≡ uniform_bits rng (record key { draw = e })
    → d ≡ e
unfolding uniform_bits
uniform_bits-draw_injective rng key d e s p q h = mix_into-injective (state rng key) d e p q (
    splitmix64-injective _ _ (mix_into-lt (state rng key) d (state-lt rng key s))
      (mix_into-lt (state rng key) e (state-lt rng key s)) h)
