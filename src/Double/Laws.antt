-- ===== src/Double/Laws.antt =====
-- What the theorems use of IEEE doubles.
use fode_hpc_wflop.Double.{◌⊘◌, ◌⊗◌, nought, ◌⊕◌, Double}
use fode_hpc_wflop.Base.{ℕ, ◌^◌, ◌<◌, ◌≡◌, ◌⊎◌, true, false, pos}

-- Integers of an `int` survive the way to a double and back.
pub record IsExact {W : Type 0} (D : Double W) : Type 0 where
  pub round_int-of_int : (n : ℕ) → n < 2 ^ 31 → D.round_int (D.of_int (pos n)) ≡ pos n
  pub ceil_int-of_int : (n : ℕ) → n < 2 ^ 31 → D.ceil_int (D.of_int (pos n)) ≡ pos n

-- `<` is a strict order; a NaN is below nothing and above nothing.
pub record IsOrdered {W : Type 0} (D : Double W) : Type 0 where
  pub lt_irrefl : (x : W) → D.lt x x ≡ false
  pub lt_trans : (x y z : W) → D.lt x y ≡ true → D.lt y z ≡ true → D.lt x z ≡ true

-- A value that is not negative: 0, a positive number, an infinity or a NaN.
abbrev pub NotNegative : {W : Type 0} ⦃D : Double W⦄ → W → Type 0
NotNegative ⦃D⦄ x = D.lt x nought ≡ false

-- The operations of the success memory keep clear of negative values.
pub record HasSigns (W : Type 0) ⦃D : Double W⦄ : Type 0 where
  pub lt_le : (x y : W) → D.lt x y ≡ true → D.le x y ≡ true
  pub add : (x y : W) → NotNegative x → NotNegative y → NotNegative (x ⊕ y)
  pub mul : (x y : W) → NotNegative x → NotNegative y → NotNegative (x ⊗ y)
  pub div : (x y : W) → NotNegative x → D.lt nought y ≡ true → NotNegative (x ⊘ y)
  pub abs : (x : W) → NotNegative (D.abs x)
  pub literal : (n k : ℕ) → NotNegative (D.literal n k)

-- `<` splits at every number; a NaN is the value that `==` tells apart from itself.
pub record SplitsNumbers {W : Type 0} (D : Double W) : Type 0 where
  pub lt_split :
      (x y z : W)
      → D.eq x x ≡ true
      → D.eq y y ≡ true
      → D.eq z z ≡ true
      → D.lt x z ≡ true
      → (D.lt x y ≡ true) ⊎ (D.lt y z ≡ true)
