-- ===== src/Rng.antt =====
-- hpc/fode_cpp/include/fode/rng.hpp: the counter-keyed generator. A `std::uint64_t` is a number
-- below 2 ^ 64, with the wrap-around of each operation written out.
pub mod Bounds
pub mod Distinct
pub mod Generator
mod Examples
use Prim.Native.Nat.{bit_xor}
use fode_hpc_wflop.Base.{
  ℕ, zero, suc, ◌+◌, ◌-◌, ◌*◌, ◌/◌, ◌%◌, ◌^◌, ◌&&◌, ◌||◌, ltb, leb, ◌==◌, if◌then◌else◌,
}

abbrev pub u64 : ℕ → ℕ
u64 n = n % 2 ^ 64

-- 0x9e3779b97f4a7c15
abbrev pub golden_gamma : ℕ
golden_gamma = 0x9e3779b97f4a7c15

-- The three lines of `splitmix64`, and its result.
pub first_mix : ℕ → ℕ
first_mix value = u64 (bit_xor value (value / 2 ^ 30) * 0xbf58476d1ce4e5b9)

pub second_mix : ℕ → ℕ
second_mix value = u64 (bit_xor value (value / 2 ^ 27) * 0x94d049bb133111eb)

pub splitmix64 : ℕ → ℕ
unfolding first_mix second_mix
splitmix64 value =
    let mixed = second_mix (first_mix (u64 (value + golden_gamma))) in
    bit_xor mixed (mixed / 2 ^ 31)

-- `mix_into(state, value)`, as the new state
pub mix_into : ℕ → ℕ → ℕ
unfolding splitmix64
mix_into state value =
    bit_xor state (splitmix64 (u64 (value + golden_gamma + u64 (state * 2 ^ 6) + state / 2 ^ 2)))

pub record CounterRng : Type 0 where
  pub seed : ℕ

-- The keys of one logical draw.
pub record Key : Type 0 where
  pub generation : ℕ
  pub phase : ℕ
  pub individual : ℕ
  pub coordinate : ℕ
  pub draw : ℕ

-- The 64 bits that `uniform` draws.
unfoldable pub uniform_bits : CounterRng → Key → ℕ
unfolding splitmix64 mix_into
uniform_bits rng key = splitmix64 (
    mix_into
      (mix_into (mix_into (mix_into (mix_into rng.seed key.generation) key.phase) key.individual)
        key.coordinate)
      key.draw)

-- `uniform` returns this number times 2 ^ -53, which a double holds exactly.
unfoldable pub uniform : CounterRng → Key → ℕ
unfolding uniform_bits
uniform rng key = uniform_bits rng key / 2 ^ 11

-- The nearest number with 53 significant digits, ties to even: a double's rounding of a product. At
-- most `fuel` low digits are dropped.
round_at : ℕ → ℕ → ℕ
round_at p shift =
    let q = p / 2 ^ shift in
    let twice = p % 2 ^ shift * 2 in
    if ltb (2 ^ shift) twice || (twice == 2 ^ shift && q % 2 == 1 && ltb 0 shift)
    then (q + 1) * 2 ^ shift
    else q * 2 ^ shift

low_digits : ℕ → ℕ → ℕ → ℕ
low_digits zero p shift = shift
low_digits (suc fuel) p shift =
    let more = low_digits fuel p (suc shift) in if ltb (p / 2 ^ shift) (2 ^ 53) then shift else more

-- `u * static_cast<double>(width)`, times 2 ^ 53. An int has 31 digits, so no more are dropped.
pub scaled : ℕ → ℕ → ℕ
unfolding round_at low_digits
scaled u width = round_at (u * width) (low_digits 31 (u * width) 0)

-- `low < high_exclusive` at every call.
unfoldable pub integer : CounterRng → ℕ → ℕ → Key → ℕ
integer rng low high_exclusive key =
    let result = low + scaled (uniform rng key) (high_exclusive - low) / 2 ^ 53 in
    if leb high_exclusive result then high_exclusive - 1 else result
