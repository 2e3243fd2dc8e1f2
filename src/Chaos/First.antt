-- ===== src/Chaos/First.antt =====
-- The first call of a chaos runner, whose error percentage is 0 / 0.
use goresilience.Prelude.{ℕ, ◌+◌, ◌≡◌, refl, some, arith, lt→ltb}
use goresilience.Prelude.Int.{pos, negsuc}
use goresilience.Errors.{err_failure_injected}
use goresilience.Runtime.{Cell, Clock}
use goresilience.Metrics.{Context, recorder_from_context}
use goresilience.Runner.{Func, Runner}
use goresilience.Float64.{Float64}
use goresilience.Chaos.{
  Injector, FailureInjector, inject_latency, current_err_perc, inject_error, run,
}

module _ {W F : Type 0} (fl : Float64 F) (clock : Clock W) (injector : Cell W Injector)
    (this : Cell W FailureInjector) (runner : Runner W) (ctx : Context W) (f : Func W) where
  abbrev delayed : W → W
  delayed w = inject_latency fl clock injector this (recorder_from_context ctx).0 w

  -- Where `int` of NaN is the least int64, as on amd64, the first call returns an injected error
  -- whatever the percentage is, 0 included, and whatever the runner would do.
  pub run-first_injects :
      (p : ℕ) (w : W)
      → current_err_perc fl 0 0 ≡ negsuc 9223372036854775807
      → this.get (delayed w) ≡ record { total = 0; errs = 0 }
      → (injector.get (delayed w)).error_percent ≡ pos p
      → (run fl clock injector this runner ctx f w).0 ≡ some err_failure_injected
  unfolding run inject_error
  run-first_injects p w nan start percent =
      rw start (rw percent (rw nan (rw (lt→ltb 0 (p + 9223372036854775808) (omega arith)) refl)))
