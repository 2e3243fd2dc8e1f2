-- ===== src/Tests/Fraction.antt =====
-- Exact fractions in the place of float64; a denominator 0 stands for NaN.
use goresilience.Prelude.{
  ℕ, ◌+◌, ◌-◌, ◌*◌, ◌/◌, ◌^◌, Bool, not, ◌&&◌, arith, ltb, leb, ◌==◌, if◌then◌else◌,
}
use goresilience.Prelude.Int.{ℤ, negsuc, pos_part, neg_part, sub_ℕ}
use goresilience.Float64.{Float64, CountLaws}

-- (plus - minus) / den
pub record Fraction : Type 0 where
  pub plus : ℕ
  pub minus : ℕ
  pub den : ℕ

abbrev quotient : Fraction → Fraction → Fraction
quotient x y =
    if leb y.minus y.plus
    then record { plus = x.plus * y.den; minus = x.minus * y.den; den = x.den * (y.plus - y.minus) }
    else record { plus = x.minus * y.den; minus = x.plus * y.den; den = x.den * (y.minus - y.plus) }

abbrev is_number : Fraction → Bool
is_number x = not (x.den == 0)

-- Towards 0; the least integer for NaN.
abbrev truncate : Fraction → ℤ
truncate x =
    if x.den == 0
    then negsuc 9223372036854775807
    else sub_ℕ ((x.plus - x.minus) / x.den) ((x.minus - x.plus) / x.den)

abbrev pub fractions : Float64 Fraction
fractions = record {
  of_int = λ n. record { plus = pos_part n; minus = neg_part n; den = 1 };
  decimal = λ n k. record { plus = n; minus = 0; den = 10 ^ k };
  add = λ x y. record {
    plus = x.plus * y.den + y.plus * x.den;
    minus = x.minus * y.den + y.minus * x.den;
    den = x.den * y.den;
  };
  mul = λ x y. record {
    plus = x.plus * y.plus + x.minus * y.minus;
    minus = x.plus * y.minus + x.minus * y.plus;
    den = x.den * y.den;
  };
  div = quotient;
  lt = λ x y.
      is_number x
      && is_number y
      && ltb (x.plus * y.den + y.minus * x.den) (y.plus * x.den + x.minus * y.den);
  le = λ x y.
      is_number x
      && is_number y
      && leb (x.plus * y.den + y.minus * x.den) (y.plus * x.den + x.minus * y.den);
  to_int = truncate;
}

pub fractions-CountLaws : CountLaws fractions
fractions-CountLaws = record {
  le_exact = λ m n _ _. ground arith;
  rate-le-zero = λ e t _ _. ground arith;
  percent-le-rate = λ p e t _ _ _. ground arith;
}
