-- ===== src/Fode/Fixture.antt =====
-- A small case for the examples: two turbines on a grid of two rows and three columns, whose second
-- cell is unavailable, with a generator that draws in order.
use fode_hpc_wflop.Base.{
  ltb, ◌==◌, if◌then◌else◌, Bool-cases, replicate, ℤ, pos, ℕ, ◌+◌, ◌-◌, ◌^◌, ◌≤◌, ◌<◌, ◌≡◌, refl,
  ◌≢◌, inl, inr, false, ◌||◌, List, [], ◌∷◌, arith,
}
use fode_hpc_wflop.Case.{CaseData}
use fode_hpc_wflop.Double.{nought}
use fode_hpc_wflop.Double.Whole.{whole}
use fode_hpc_wflop.Double.Laws.{NotNegative}
use fode_hpc_wflop.Rng.{Key}
use fode_hpc_wflop.Rng.Generator.{Generator, key}
use fode_hpc_wflop.Fode.Grid.{contains, IsCase, IsFeasible, IsLayoutRow}
use fode_hpc_wflop.Fode.Sample.{Sample, cauchy_draw}
use fode_hpc_wflop.Fode.Sample.Total.{Accepts}
use fode_hpc_wflop.Fode.State.{History, State, RunConfig}
use fode_hpc_wflop.Fode.Generation.Kept.{IsState, IsHistory}
use fode_hpc_wflop.Fode.Archive.Capacity.{Unique}
use fode_hpc_wflop.Fode.Accept.{Best, Memory}

pub zero_lt : 0 < 2 ^ 53
zero_lt = omega arith

-- A generator whose draws go round their range in order.
abbrev pub rounds_of : ℕ → ℕ → Key → ℕ
rounds_of low high k = low + (if ltb k.draw (high - low) then k.draw else 0)

pub rounds_of_range :
    (low high : ℕ) (k : Key)
    → low < high
    → (low ≤ rounds_of low high k) × (rounds_of low high k < high)
rounds_of_range low high k h = ground arith

abbrev pub in_order : Generator
in_order = record {
  uniform = λ k. 0;
  integer = rounds_of;
  uniform_lt = λ k. zero_lt;
  integer_range = rounds_of_range;
}

abbrev pub farm : CaseData ℤ
farm = record {
  case_id = "small";
  rows = 2;
  cols = 3;
  turbine_count = 2;
  cell_width = pos 400;
  theta = pos 0 ∷ [];
  velocity = pos 12 ∷ [];
  probability = pos 1 ∷ [];
  unavailable_cells_1based = 2 ∷ [];
}

pub farm-IsCase : IsCase farm
farm-IsCase = record {
  small = omega arith;
  turbines = omega arith;
  cells = ((omega arith, omega arith), tt);
  room = omega arith;
}

abbrev pub layout_cells : List ℕ
layout_cells = 1 ∷ 6 ∷ []

pub layout_cells-IsFeasible : IsFeasible farm layout_cells
unfolding contains
layout_cells-IsFeasible = record {
  complete = refl;
  ascends = (omega arith, (omega arith, tt));
  free = (
    record { positive = omega arith; on_grid = omega arith; available = refl },
    (record { positive = omega arith; on_grid = omega arith; available = refl }, tt),
  );
}

abbrev pub layout_row : List ℤ
layout_row = pos 1 ∷ pos 6 ∷ []

pub layout_row-IsLayoutRow : IsLayoutRow farm layout_row
layout_row-IsLayoutRow = record {
  cells = layout_cells;
  spelled = refl;
  feasible = layout_cells-IsFeasible;
}

abbrev pub best : Best ℤ
best = record { best_fitness = pos 5; best_layout = pos 1 ∷ pos 6 ∷ [] }

abbrev pub sample : Sample ℤ
sample = record { cr = pos 1; sf = pos 1; r1 = 1; r2 = 2; pbest_row = 0; jrand = 0 }

abbrev pub memory : Memory ℤ
memory = record {
  memory_sf = pos 1 ∷ pos 1 ∷ [];
  memory_cr = pos 1 ∷ pos 1 ∷ [];
  memory_position = 1;
}

-- Three draws in order avoid two values.
pub avoids :
    (count a b : ℕ) (generation phase individual : ℕ)
    → 3 ≤ count
    → (d : ℕ) × (d < 3)
      × (rounds_of 0 count (key generation phase individual 0 d) ≢ a)
      × (rounds_of 0 count (key generation phase individual 0 d) ≢ b)
avoids count a b generation phase individual h = elim (Bool-cases (a == 0 || b == 0)) [
  | inr neither ↦ (0, omega arith, ground arith, ground arith)
  | inl one ↦ elim (Bool-cases (a == 1 || b == 1)) [
    | inr neither ↦ (1, omega arith, ground arith, ground arith)
    | inl other ↦ (2, omega arith, ground arith, ground arith)
  ]
]

pub positive_draw :
    (mu : ℤ) (generation individual : ℕ)
    → NotNegative mu
    → whole.le (cauchy_draw in_order 3 generation mu individual 0) nought ≡ false
unfolding cauchy_draw
positive_draw mu generation individual h = ground arith

pub in_order-Accepts : Accepts ℤ in_order 3
in_order-Accepts = record {
  cauchy = λ mu generation individual h. (0, omega arith, positive_draw mu generation individual h);
  index = λ generation phase individual count a b h. avoids count a b generation phase individual h;
}

abbrev pub no_history : History ℤ
no_history = record { h1 = []; h2 = []; h3 = []; h4 = [] }

abbrev pub config : RunConfig
config = record { seed = 42; physical_fes_budget = 100; workers = pos 4 }

abbrev pub early : State ℤ
early = record {
  population = layout_row ∷ layout_row ∷ layout_row ∷ [];
  population_size = 3;
  fitness = pos 7 ∷ pos 8 ∷ pos 9 ∷ [];
  best_fitness = pos 0;
  best_layout = pos 1 ∷ pos 6 ∷ [];
  memory_sf = replicate 5 (pos 1);
  memory_cr = replicate 5 (pos 1);
  memory_position = 0;
  archive = [];
  archive_capacity = pos 4;
  dp = no_history;
  da = no_history;
  physical_fes = 3;
  legacy_fes = 0;
  iteration = 1;
  generation = 0;
}

pub no_history-IsHistory : IsHistory 3 no_history
no_history-IsHistory = record {
  h1 = record { aligned = inl refl };
  h2 = record { aligned = inl refl };
  h3 = record { aligned = inl refl };
  h4 = record { aligned = inl refl };
}

pub early-IsState : IsState farm 3 early
early-IsState = record {
  rows = refl;
  values = refl;
  large = omega arith;
  small = omega arith;
  memory = record { long = refl; signed = (refl, (refl, (refl, (refl, (refl, tt))))) };
  dp = no_history-IsHistory;
  da = no_history-IsHistory;
  best = record { cells = layout_cells; spelled = refl; feasible = layout_cells-IsFeasible };
}

abbrev pub other_row : List ℤ
other_row = pos 3 ∷ pos 5 ∷ []

pub layout_row-Unique : Unique (layout_row ∷ [])
layout_row-Unique = (tt, tt)
