-- ===== src/Base/Bits.antt =====
-- Laws of the exclusive or and of right shifts, for the mixing steps of the generator.
use Prim.Native.Nat.{
  ℕ, zero, suc, ◌+◌, ◌*◌, ◌/◌, ◌%◌, ◌^◌, ◌≤◌, ◌<◌, bit_xor, digits, differ, bit_xor-bitwise,
}
use mathlib.Core.Path.{◌≡◌, refl, ap, ap₂, sym, ◌∙◌}
use native.Mathlib.Omega.{arith}
use native.Mathlib.Nat.{pow-suc, div-one, div-div-eq-div-mul, div-le_self}

abbrev xor_digits : ℕ → ℕ → ℕ → ℕ
xor_digits n a b = digits (λ b. b) differ n a b

xor_digits_fuel : (n m a b : ℕ) → a ≤ n → a ≤ m → xor_digits n a b ≡ xor_digits m a b
xor_digits_fuel zero zero a b p q = refl
xor_digits_fuel zero (suc m) zero b p q = refl
xor_digits_fuel zero (suc m) (suc a) b p q = absurd (omega arith)
xor_digits_fuel (suc n) zero zero b p q = refl
xor_digits_fuel (suc n) zero (suc a) b p q = absurd (omega arith)
xor_digits_fuel (suc n) (suc m) zero b p q = refl
xor_digits_fuel (suc n) (suc m) (suc a) b p q =
    omega (arith, xor_digits_fuel n m (suc a / 2) (b / 2) (omega arith) (omega arith))

pub zero-bit_xor : (b : ℕ) → bit_xor 0 b ≡ b
zero-bit_xor b = bit_xor-bitwise 0 b

differ_digits : (x y : ℕ) → x < 2 → y < 2 → differ x y ≡ (x + y) % 2
differ_digits zero zero p q = refl
differ_digits zero (suc zero) p q = refl
differ_digits (suc zero) zero p q = refl
differ_digits (suc zero) (suc zero) p q = refl
differ_digits zero (suc (suc y)) p q = absurd (omega arith)
differ_digits (suc zero) (suc (suc y)) p q = absurd (omega arith)
differ_digits (suc (suc x)) y p q = absurd (omega arith)

-- The lowest digit of an exclusive or, and the others.
pub bit_xor_step : (a b : ℕ) → bit_xor a b ≡ bit_xor (a / 2) (b / 2) * 2 + (a % 2 + b % 2) % 2
bit_xor_step zero b = omega (arith, zero-bit_xor b, zero-bit_xor (b / 2))
bit_xor_step (suc a) b = omega (
  arith,
  bit_xor-bitwise (suc a) b,
  bit_xor-bitwise (suc a / 2) (b / 2),
  xor_digits_fuel a (suc a / 2) (suc a / 2) (b / 2) (omega arith) (omega arith),
  differ_digits (suc a % 2) (b % 2) (omega arith) (omega arith),
)

cancel_left_fuel : (n a b c : ℕ) → b ≤ n → c ≤ n → bit_xor a b ≡ bit_xor a c → b ≡ c
cancel_left_fuel zero a b c p q e = omega arith
cancel_left_fuel (suc n) a b c p q e = omega (
  arith,
  bit_xor_step a b,
  bit_xor_step a c,
  cancel_left_fuel n (a / 2) (b / 2) (c / 2) (omega arith) (omega arith)
      (omega (arith, bit_xor_step a b, bit_xor_step a c)),
)

-- An exclusive or with one word loses nothing of the other.
pub bit_xor-cancel_left : (a b c : ℕ) → bit_xor a b ≡ bit_xor a c → b ≡ c
bit_xor-cancel_left a b c = cancel_left_fuel (b + c) a b c (omega arith) (omega arith)

comm_fuel : (n a b : ℕ) → a + b ≤ n → bit_xor a b ≡ bit_xor b a
comm_fuel zero a b p = let e : a ≡ b = omega arith in rw e
comm_fuel (suc n) a b p =
    omega (arith, bit_xor_step a b, bit_xor_step b a, comm_fuel n (a / 2) (b / 2) (omega arith))

pub bit_xor-cancel_right : (a b c : ℕ) → bit_xor b a ≡ bit_xor c a → b ≡ c
bit_xor-cancel_right a b c e =
    bit_xor-cancel_left a b c
      (comm_fuel (a + b) a b (omega arith) ∙ e ∙ comm_fuel (c + a) c a (omega arith))

pub bit_xor-lt : (n a b : ℕ) → a < 2 ^ n → b < 2 ^ n → bit_xor a b < 2 ^ n
bit_xor-lt zero a b p q =
    let ea : a ≡ 0 = omega arith in let eb : b ≡ 0 = omega arith in rw (ea, eb) (omega arith)
bit_xor-lt (suc n) a b p q = omega (
  arith,
  pow-suc 2 n,
  bit_xor_step a b,
  bit_xor-lt n (a / 2) (b / 2) (omega (arith, pow-suc 2 n)) (omega (arith, pow-suc 2 n)),
)

shift_suc : (x k : ℕ) → x / 2 ^ suc k ≡ x / 2 ^ k / 2
shift_suc x k = ap (λ d. x / d) (pow-suc 2 k) ∙ sym (div-div-eq-div-mul x (2 ^ k) 2)

halve : (a b : ℕ) → bit_xor a b / 2 ≡ bit_xor (a / 2) (b / 2)
halve a b = omega (arith, bit_xor_step a b)

-- A right shift of an exclusive or is that of its parts.
pub bit_xor-shift : (k a b : ℕ) → bit_xor a b / 2 ^ k ≡ bit_xor (a / 2 ^ k) (b / 2 ^ k)
bit_xor-shift zero a b = div-one (bit_xor a b) ∙ ap₂ bit_xor (sym (div-one a)) (sym (div-one b))
bit_xor-shift (suc k) a b =
    shift_suc (bit_xor a b) k
    ∙ ap (λ x. x / 2) (bit_xor-shift k a b)
    ∙ halve (a / 2 ^ k) (b / 2 ^ k)
    ∙ ap₂ bit_xor (sym (shift_suc a k)) (sym (shift_suc b k))

xorshift : ℕ → ℕ → ℕ
xorshift k x = bit_xor x (x / 2 ^ k)

shift-le : (x n k : ℕ) → x ≤ suc n → x / 2 ^ suc k ≤ n
shift-le x n k h = omega (arith, shift_suc x k, div-le_self x (2 ^ k))

xorshift-injective_fuel :
    (n k x y : ℕ) → x ≤ n → y ≤ n → xorshift (suc k) x ≡ xorshift (suc k) y → x ≡ y
unfolding xorshift
xorshift-injective_fuel zero k x y p q e = omega arith
xorshift-injective_fuel (suc n) k x y p q e =
    let shifted =
      xorshift-injective_fuel n k (x / 2 ^ suc k) (y / 2 ^ suc k) (shift-le x n k p)
        (shift-le y n k q)
        (sym (bit_xor-shift (suc k) x (x / 2 ^ suc k))
          ∙ ap (λ w. w / 2 ^ suc k) e
          ∙ bit_xor-shift (suc k) y (y / 2 ^ suc k)) in
    bit_xor-cancel_right (y / 2 ^ suc k) x y (rw shifted at e)

-- `x ^ (x >> k)` can be undone, for a shift by at least one place.
pub xorshift-injective : (k x y : ℕ) → bit_xor x (x / 2 ^ suc k) ≡ bit_xor y (y / 2 ^ suc k) → x ≡ y
unfolding xorshift
xorshift-injective k x y e = xorshift-injective_fuel (x + y) k x y (omega arith) (omega arith) e
