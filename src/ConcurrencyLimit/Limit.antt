-- ===== src/ConcurrencyLimit/Limit.antt =====
-- concurrencylimit/limit/: the results that a limiter measures, the interface of a limiter, and the
-- static limiter.
use goresilience.Prelude.{ℕ, String}
use goresilience.Prelude.Int.{ℤ}
use goresilience.Runtime.{Effect}
pub mod Aimd

pub data Result : Type 0 where
  success : Result
  failure : Result
  ignore : Result

abbrev pub result_string : Result → String
result_string success = "success"
result_string failure = "failure"
result_string ignore = "ignore"

-- `limit.Limiter`: the start of the execution, the time in the queue, the executions in flight.
pub record Limiter (W : Type 0) : Type 0 where
  pub measure_sample : (start : ℕ) (queued : ℤ) (inflight : ℤ) → Result → Effect W ℤ
  pub get_limit : Effect W ℤ

abbrev pub new_static : {W : Type 0} → ℤ → Limiter W
new_static limit = record {
  measure_sample = λ start queued inflight result w. (limit, w);
  get_limit = λ w. (limit, w);
}
