-- ===== src/Hystrix/Retried.antt =====
-- The retries of the example chain while its circuit is not open.
use goresilience.Prelude.{ℕ, String, Option, some}
use goresilience.Errors.{Error}
use goresilience.Runtime.{Clock}
use goresilience.Metrics.{Measurement, measuring, Context, set_recorder_on_context}
use goresilience.Runner.{Func, Runner, command}
use goresilience.Float64.{Float64}
use goresilience.CircuitBreaker.{CircuitBreaker}
use goresilience.Retry
use goresilience.Retry.{Backoff, attempt}
use goresilience.Retry.Attempts.{before}
use goresilience.Hystrix.{HystrixConf}

module _ {W F : Type 0} (fl : Float64 F) (clock : Clock W) (lib : Backoff W F)
    (cfg : HystrixConf W F) (f : String → Measurement → W → W) (ctx : Context W) (fn : Func W) where
  abbrev inner : Context W
  inner = set_recorder_on_context ctx (measuring f cfg.id)

  -- The attempt `k` of the retries, if the ones before it failed.
  abbrev pub tried : ℕ → W → Option Error × W
  tried k w =
      let next = cfg.timeout (some command) in
      let settings = Retry.defaults cfg.retry in
      attempt fl clock lib settings next inner fn k (before fl clock lib settings next inner fn w k)
