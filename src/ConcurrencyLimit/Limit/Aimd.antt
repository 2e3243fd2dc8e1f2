-- ===== src/ConcurrencyLimit/Limit/Aimd.antt =====
-- concurrencylimit/limit/aimd.go: additive increase, multiplicative decrease. The int of the limit
-- times the factor is taken not to leave int64.
use goresilience.Prelude.{ℕ, zero, suc, ◌+◌, ◌*◌, ◌||◌, if◌then◌else◌}
use goresilience.Prelude.Int.{ℤ, pos, negsuc, ◌-ℤ◌, ◌*ℤ◌, ltb_ℤ, eqb_ℤ}
use goresilience.Runtime.{Cell, Clock}
use goresilience.Float64.{Float64}
use goresilience.ConcurrencyLimit.Limit.{Result, success, failure, ignore, Limiter}
pub mod Floor
pub mod Samples

pub record AimdConfig (F : Type 0) : Type 0 where
  pub minimum_limit : ℤ
  pub slow_start_threshold : ℤ
  pub rtt_timeout : ℤ
  pub backoff_ratio : F
  pub limit_increment_inflight_factor : ℤ

pub record Aimd (F : Type 0) : Type 0 where
  pub cfg : AimdConfig F
  pub open cfg use *
  pub limit : F

abbrev pub or_default : ℕ → ℤ → ℤ
or_default value (pos zero) = pos value
or_default value (pos (suc n)) = pos (suc n)
or_default value (negsuc n) = negsuc n

module _ {F : Type 0} (fl : Float64 F) where
  unfoldable pub defaults : AimdConfig F → AimdConfig F
  defaults c = record {
    minimum_limit = or_default 10 c.minimum_limit;
    slow_start_threshold = c.slow_start_threshold;
    rtt_timeout = or_default 2_000_000_000 c.rtt_timeout;
    backoff_ratio =
        if fl.lt c.backoff_ratio (fl.decimal 5 1) || fl.lt (fl.of_int (pos 1)) c.backoff_ratio
        then fl.decimal 9 1
        else c.backoff_ratio;
    limit_increment_inflight_factor = or_default 1 c.limit_increment_inflight_factor;
  }

  unfoldable pub new_aimd : AimdConfig F → Aimd F
  unfolding defaults
  new_aimd cfg = record { cfg = defaults cfg; limit = fl.of_int (defaults cfg).minimum_limit }

  -- The methods change the limit; what they return is its int.
  unfoldable pub get_limit : Aimd F → ℤ
  get_limit a = fl.to_int a.limit

  unfoldable pub decrease_limit : Aimd F → Aimd F
  decrease_limit a = record a { limit = if fl.le lowered min then min else lowered }
    where
      lowered : F
      lowered = fl.mul a.limit a.backoff_ratio

      min : F
      min = fl.of_int a.minimum_limit

  unfoldable pub increase_limit : Aimd F → Aimd F
  increase_limit a =
      if ltb_ℤ (fl.to_int a.limit) a.slow_start_threshold || eqb_ℤ a.slow_start_threshold (pos 0)
      then record a { limit = fl.add a.limit one }
      else record a { limit = fl.add a.limit (fl.mul one (fl.div one a.limit)) }
    where
      one : F
      one = fl.of_int (pos 1)

  -- `elapsed` is `time.Since(startTime)`. The new state, and the value that is returned.
  unfoldable pub sample : (elapsed inflight : ℤ) → Result → Aimd F → ℤ × Aimd F
  unfolding decrease_limit increase_limit
  sample elapsed inflight success a =
      if ltb_ℤ a.rtt_timeout elapsed
      then (fl.to_int (decrease_limit a).limit, decrease_limit a)
      else if ltb_ℤ (fl.to_int a.limit *ℤ a.limit_increment_inflight_factor) inflight
      then (fl.to_int (increase_limit a).limit, increase_limit a)
      else (fl.to_int a.limit, a)
  sample elapsed inflight failure a = (fl.to_int (decrease_limit a).limit, decrease_limit a)
  sample elapsed inflight ignore a = (fl.to_int a.limit, a)

  -- The limiter in a variable of the program.
  abbrev pub limiter : {W : Type 0} → Clock W → Cell W (Aimd F) → Limiter W
  limiter clock this = record {
    measure_sample = λ start queued inflight result w.
        let r = sample (pos (clock.now w) -ℤ pos start) inflight result (this.get w) in
        (r.0, this.put r.1 w);
    get_limit = λ w. (get_limit (this.get w), w);
  }
