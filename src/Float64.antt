-- ===== src/Float64.antt =====
-- Go's float64, which is not the repository's: its operations, and the laws of IEEE 754 that the
-- proofs rely on. `le` is `<=` and `lt` is `<`; both are false where an operand is NaN.
use goresilience.Prelude.{ℕ, ◌+◌, ◌*◌, ◌^◌, ◌≤◌, ◌<◌, ◌≡◌, Bool, not, ◌&&◌, leb, ◌==◌}
use goresilience.Prelude.Int.{ℤ, pos, pos_part, neg_part, leb_ℤ}

pub record Float64 (F : Type 0) : Type 0 where
  pub of_int : ℤ → F  -- float64(n)
  pub decimal : ℕ → ℕ → F  -- decimal n k: the literal n / 10 ^ k
  pub add : F → F → F
  pub mul : F → F → F
  pub div : F → F → F
  pub lt : F → F → Bool
  pub le : F → F → Bool
  pub to_int : F → ℤ  -- int(x)

-- Integers up to 2^53 in size are exact.
abbrev pub IsExact : ℤ → Type 0
IsExact n = pos_part n + neg_part n ≤ 2 ^ 53

-- What is used of counts and of their quotients. A quotient of two exact integers is rounded once:
-- it is 0 only for the numerator 0, NaN for 0 / 0, and +Inf above a denominator 0. Two quotients that
-- differ by 2^-47 or more, and are at most 10, do not round to one another.
pub record CountLaws {F : Type 0} (fl : Float64 F) : Type 0 where
  pub le_exact :
      (m : ℤ) (n : ℕ)
      → IsExact m
      → n ≤ 2 ^ 53
      → fl.le (fl.of_int m) (fl.of_int (pos n)) ≡ leb_ℤ m (pos n)
  pub rate-le-zero :
      (e t : ℕ)
      → e ≤ t
      → t ≤ 2 ^ 53
      → fl.le (fl.div (fl.of_int (pos e)) (fl.of_int (pos t))) (fl.of_int (pos 0))
        ≡ ((e == 0) && not (t == 0))
  pub percent-le-rate :
      (p e t : ℕ)
      → p ≤ 1000
      → e ≤ t
      → t < 2 ^ 40
      → fl.le
          (fl.div (fl.of_int (pos p)) (fl.of_int (pos 100)))
          (fl.div (fl.of_int (pos e)) (fl.of_int (pos t)))
        ≡ (leb (p * t) (100 * e) && not (t == 0))
