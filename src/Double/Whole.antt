-- ===== src/Double/Whole.antt =====
-- Doubles that are whole numbers: a value of the interface that computes, for the examples. It has
-- no fractions, so literals round up and the transcendental functions are constant.
use fode_hpc_wflop.Base.{
  ◌+◌, suc, ◌/◌, ◌^◌, refl, true, not, ℤ, pos, negsuc, ◌+ℤ◌, ◌-ℤ◌, ◌-◌, ◌*ℤ◌, ◌/ℤ◌, ltb_ℤ, eqb_ℤ,
  arith,
}
use fode_hpc_wflop.Double.{Double}
use fode_hpc_wflop.Double.Laws.{IsExact, IsOrdered, HasSigns}

abbrev abs_ℤ : ℤ → ℤ
abs_ℤ (pos n) = pos n
abs_ℤ (negsuc n) = pos (suc n)

instance abbrev pub whole : Double ℤ
whole = record {
  lt = ltb_ℤ;
  le = λ x y. not (ltb_ℤ y x);
  eq = eqb_ℤ;
  add = ◌+ℤ◌;
  sub = ◌-ℤ◌;
  mul = ◌*ℤ◌;
  div = ◌/ℤ◌;
  neg = λ x. pos 0 -ℤ x;
  abs = abs_ℤ;
  sqrt = λ x. x;
  log = λ x. pos 1;
  sin = λ x. pos 0;
  cos = λ x. pos 1;
  tan = λ x. pos 1;
  acos = λ x. pos 1;
  hypot = λ x y. abs_ℤ x +ℤ abs_ℤ y;
  atan2 = λ y x. pos 0;
  pi = pos 3;
  infinity = pos (10 ^ 18);
  minus_infinity = pos 0 -ℤ pos (10 ^ 18);
  smallest = pos 1;
  is_finite = λ x. true;
  literal = λ n k. pos ((n + 10 ^ k - 1) / 10 ^ k);
  dyadic = λ n. pos 0;
  of_int = λ n. n;
  ceil_int = λ x. x;
  round_int = λ x. x;
}

pub whole-IsExact : IsExact whole
whole-IsExact = record { round_int-of_int = λ n h. refl; ceil_int-of_int = λ n h. refl }

pub whole-IsOrdered : IsOrdered whole
whole-IsOrdered = record { lt_irrefl = λ x. ground arith; lt_trans = λ x y z p q. ground arith }

pub whole-HasSigns : HasSigns ℤ
whole-HasSigns = record {
  lt_le = λ x y p. ground arith;
  add = λ x y p q. ground arith;
  mul = λ x y p q. ground arith;
  div = λ x y p q. ground arith;
  abs = λ x. ground arith;
  literal = λ n k. ground arith;
}
