-- ===== src/Double.antt =====
-- The program's `double`: the operations that the code calls, as an interface. Nothing is assumed
-- of a rounded sum or product; `Double/Laws.antt` names the few facts that theorems use.
pub mod Laws
pub mod Whole
use fode_hpc_wflop.Base.{ℕ, zero, suc, Bool, true, false, ℤ, pos, if◌then◌else◌, List, [], ◌∷◌}

pub record Double (W : Type 0) : Type 0 where
  pub lt : W → W → Bool  -- a < b; false on NaN, as are the next two
  pub le : W → W → Bool  -- a <= b
  pub eq : W → W → Bool  -- a == b
  pub add : W → W → W
  pub sub : W → W → W
  pub mul : W → W → W
  pub div : W → W → W
  pub neg : W → W
  pub abs : W → W
  pub sqrt : W → W
  pub log : W → W
  pub sin : W → W
  pub cos : W → W
  pub tan : W → W
  pub acos : W → W
  pub hypot : W → W → W
  pub atan2 : W → W → W
  pub pi : W  -- std::numbers::pi
  pub infinity : W
  pub minus_infinity : W
  pub smallest : W  -- std::numeric_limits<double>::min()
  pub is_finite : W → Bool
  pub literal : ℕ → ℕ → W  -- `literal n k` is the decimal n / 10 ^ k, as written in the source
  pub dyadic : ℕ → W  -- n * 2 ^ -53 for n < 2 ^ 53
  pub of_int : ℤ → W  -- static_cast<double>(n)
  pub ceil_int : W → ℤ  -- static_cast<int>(std::ceil(x))
  pub round_int : W → ℤ  -- std::llround(x)

module _ {W : Type 0} ⦃D : Double W⦄ where
  infixl 65 ◌⊕◌ ◌⊖◌
  infixl 70 ◌⊗◌ ◌⊘◌
  abbrev pub ◌⊕◌ : W → W → W
  x ⊕ y = D.add x y

  abbrev pub ◌⊖◌ : W → W → W
  x ⊖ y = D.sub x y

  abbrev pub ◌⊗◌ : W → W → W
  x ⊗ y = D.mul x y

  abbrev pub ◌⊘◌ : W → W → W
  x ⊘ y = D.div x y

  -- 0.0 and 1.0
  abbrev pub nought : W
  nought = D.literal 0 1

  abbrev pub unity : W
  unity = D.literal 10 1

  -- -1.0
  abbrev pub minus_unity : W
  minus_unity = nought ⊖ unity

  -- std::max, std::min and std::clamp, which compare by `<`
  abbrev pub max_double : W → W → W
  max_double x y = if D.lt x y then y else x

  abbrev pub min_double : W → W → W
  min_double x y = if D.lt y x then y else x

  abbrev pub clamp : W → W → W → W
  clamp x low high = if D.lt x low then low else if D.lt high x then high else x

  -- The sum of a loop that starts at 0.0, in order.
  abbrev pub sum_from : W → List W → W
  sum_from total [] = total
  sum_from total (x ∷ xs) = sum_from (total ⊕ x) xs
