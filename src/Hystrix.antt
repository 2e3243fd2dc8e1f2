-- ===== src/Hystrix.antt =====
-- examples/hystrix/main.go: the runner of the example, one chain of five middlewares. Those of the
-- bulkhead and of the timeout, which are modelled elsewhere as steps of goroutines, can be any here.
use goresilience.Prelude.{String, Option, none, some, List, [], ◌∷◌}
use goresilience.Runtime.{Cell, Clock}
use goresilience.Metrics.{Recorder}
use goresilience.Runner.{Runner, Middleware, runner_chain, measured}
use goresilience.Float64.{Float64}
use goresilience.CircuitBreaker
use goresilience.CircuitBreaker.{CircuitBreaker}
use goresilience.Retry
use goresilience.Retry.{Backoff}
pub mod Open
pub mod Retried

-- The breaker is the variable that the middleware makes; the middlewares are those of the fields
-- `Bulkhead` and `Timeout`.
pub record HystrixConf (W F : Type 0) : Type 0 where
  pub circuitbreaker : Cell W CircuitBreaker
  pub bulkhead : Middleware W
  pub retry : Retry.Config
  pub timeout : Middleware W
  pub id : String
  pub metrics_recorder : Option (Recorder W)

module _ {W F : Type 0} (fl : Float64 F) (clock : Clock W) (lib : Backoff W F) where
  unfoldable pub new_hystrix : HystrixConf W F → Runner W
  new_hystrix cfg = runner_chain (
      measured clock cfg.id cfg.metrics_recorder
      ∷ CircuitBreaker.middleware fl clock cfg.circuitbreaker
      ∷ cfg.bulkhead
      ∷ Retry.middleware fl clock lib cfg.retry
      ∷ cfg.timeout
      ∷ [])
