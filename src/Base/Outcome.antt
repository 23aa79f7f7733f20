-- ===== src/Base/Outcome.antt =====
-- What a call may do besides returning: throw one of the two standard exceptions, or stay in a
-- rejection loop for as long as the model's fuel lasts.
use Prim.Native.String.{String}
use mathlib.Core.Bool.{Bool, true, false}
use mathlib.Core.Path.{◌≡◌, refl, ap}

pub data Error : Type 0 where
  invalid_argument : String → Error
  runtime_error : String → Error
  out_of_fuel : Error

pub data Result {ℓ} (Value : Type ℓ) : Type ℓ where
  err : (thrown : Error) → Result Value
  ok : (value : Value) → Result Value

infixl 5 ◌>>=◌ ◌>>◌
-- A call, then the rest of the block, unless the call throws.
abbrev pub ◌>>=◌ {ℓ κ} : {V : Type ℓ} {W : Type κ} → Result V → (V → Result W) → Result W
err thrown >>= rest = err thrown
ok value >>= rest = rest value

-- `if (bad) throw e;`
abbrev pub throw_if : Bool → Error → Result (Unit {0})
throw_if false thrown = ok tt
throw_if true thrown = err thrown

abbrev pub ◌>>◌ {κ} : {W : Type κ} → Result (Unit {0}) → Result W → Result W
check >> rest = check >>= (λ checked. rest)

module _ {ℓ} {B : Type ℓ} where
  -- A block that returns has run its first call.
  pub after_call {κ} :
      {A : Type κ} (first : Result A) (rest : A → Result B) (b : B)
      → (first >>= rest) ≡ ok b
      → (a : A) × (first ≡ ok a) × (rest a ≡ ok b)
  after_call (err e) rest b h = cc
  after_call (ok a) rest b h = (a, refl, h)

  -- It has passed its check.
  pub after_check :
      (bad : Bool) (e : Error) (rest : Result B) (b : B)
      → (throw_if bad e >> rest) ≡ ok b
      → (bad ≡ false) × (rest ≡ ok b)
  after_check true e rest b h = cc
  after_check false e rest b h = (refl, h)

  pub ok-injective : (a b : B) → ok a ≡ ok b → a ≡ b
  ok-injective a b h = ap (λ r. elim r [ ok value ↦ value | err e ↦ a ]) h
