-- ===== src/Tests/Thousandths.antt =====
-- Whole thousandths in the place of float64, rounded down: enough for the order that the limits
-- need. There is no NaN, and what is negative counts as 0.
use native.Mathlib.Nat.{div-le_of_le-mul, mul-le-mul_left}
use goresilience.Prelude.{ℕ, ◌≤◌, le→leb, leb→le, ◌+◌, ◌*◌, ◌/◌, ◌^◌, refl, arith, ltb, leb}
use goresilience.Prelude.Int.{pos, pos_part}
use goresilience.Float64.{Float64}
use goresilience.ConcurrencyLimit.Limit.Aimd.Floor.{LimitLaws}

abbrev pub thousandths : Float64 ℕ
thousandths = record {
  of_int = λ n. pos_part n * 1000;
  decimal = λ n k. n * 1000 / 10 ^ k;
  add = λ x y. x + y;
  mul = λ x y. x * y / 1000;
  div = λ x y. x * 1000 / y;
  lt = ltb;
  le = leb;
  to_int = λ x. pos (x / 1000);
}

whole : (x r : ℕ) → r ≤ 1000 → x * r ≤ 1000 * x
whole x r h = grind (arith, mul-le-mul_left x h)

pub thousandths-LimitLaws : LimitLaws thousandths
thousandths-LimitLaws = record {
  trans = λ x y z a b. ground arith;
  number_left = λ x y a. ground arith;
  number_right = λ x y a. ground arith;
  other = λ x y a b c. ground arith;
  other_lt = λ x y a b c. ground arith;
  ints = λ m n a b. ground arith;
  half_nine = (refl, refl);
  scaled =
      λ x r a b c. le→leb (x * r / 1000) x (div-le_of_le-mul 1000 (whole x r (leb→le r 1000 c)));
  grows = λ x d a b. ground arith;
  reciprocal = λ x a. ground arith;
}
