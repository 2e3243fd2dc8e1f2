-- ===== src/Hystrix/Open.antt =====
-- The example chain while its circuit is open.
use goresilience.Prelude.{String, ◌≡◌, ap, ◌∙◌, false, some}
use goresilience.Prelude.Int.{ltb_ℤ}
use goresilience.Errors.{err_circuit_open, is_nil}
use goresilience.Runtime.{Clock}
use goresilience.Metrics.{
  Measurement, measuring, command_execution, Context, set_recorder_on_context,
}
use goresilience.Runner.{Func, Runner, command, sanitize_runner, measured}
use goresilience.Runner.Chain.{runner_chain-nest}
use goresilience.Float64.{Float64}
use goresilience.CircuitBreaker
use goresilience.CircuitBreaker.{CircuitBreaker, state_open, since_state_start, record_result, run}
use goresilience.CircuitBreaker.Calls.{run-open_rejects}
use goresilience.Retry
use goresilience.Retry.{Backoff}
use goresilience.Hystrix.{HystrixConf, new_hystrix}

module _ {W F : Type 0} (fl : Float64 F) (clock : Clock W) (lib : Backoff W F)
    (cfg : HystrixConf W F) where
  -- What the circuit breaker is around.
  abbrev pub guarded : Runner W
  guarded =
      cfg.bulkhead
        (some (Retry.middleware fl clock lib cfg.retry (some (cfg.timeout (some command)))))

  -- The chain is its outer two runners around what they guard.
  pub new_hystrix-nest :
      new_hystrix fl clock lib cfg
      ≡ measured clock cfg.id cfg.metrics_recorder (some (run fl clock cfg.circuitbreaker guarded))
  unfolding new_hystrix CircuitBreaker.middleware sanitize_runner
  new_hystrix-nest = runner_chain-nest _

  -- While the circuit is open and its wait is not over, a call of the whole chain returns the error of an open
  -- circuit at once: the bulkhead, the retries, the timeout and the function are not called, and nothing is
  -- changed but the count of the rejection and one measurement of a command that failed.
  pub new_hystrix-open :
      (f : String → Measurement → W → W) (old : String) (ctx : Context W) (fn : Func W) (w : W)
      → cfg.metrics_recorder ≡ some (measuring f old)
      → (cfg.circuitbreaker.get w).state ≡ state_open
      → ltb_ℤ
          (cfg.circuitbreaker.get w).wait_duration_in_open_state
          (since_state_start fl clock cfg.circuitbreaker w)
        ≡ false
      → new_hystrix fl clock lib cfg ctx fn w ≡ (
        some err_circuit_open,
        f cfg.id
            (command_execution (clock.now w) false)
            (record_result fl clock cfg.circuitbreaker (some err_circuit_open) w),
      )
  unfolding measured sanitize_runner
  new_hystrix-open f old ctx fn w rec e early =
      let inner = set_recorder_on_context ctx (measuring f cfg.id) in
      ap (λ r. r ctx fn w) new_hystrix-nest
      ∙ rw rec (
          ap (λ r. (r.0, f cfg.id (command_execution (clock.now w) (is_nil r.0)) r.1))
            (run-open_rejects fl clock cfg.circuitbreaker guarded inner fn w e early))
