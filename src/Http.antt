-- ===== src/Http.antt =====
-- examples/http/http.go: the HTTP middleware of the example, which sheds load with a concurrency limit.
-- `net/http` is a parameter: a handler changes the world in the context of its request, and
-- `write_header` is the method of the response writer. The executor can be any; the example has a LIFO.
use goresilience.Prelude.{ℕ, Option, none, some, [], ◌∷◌}
use goresilience.Prelude.Int.{ℤ}
use goresilience.Errors.{Error}
use goresilience.Runtime.{Cell, Clock}
use goresilience.Metrics.{Context}
use goresilience.Runner.{Func, Runner, runner_chain}
use goresilience.ConcurrencyLimit.Limit.{Limiter}
use goresilience.ConcurrencyLimit.Policy.{no_failure_policy}
use goresilience.ConcurrencyLimit.Limited
use goresilience.ConcurrencyLimit.Limited.{Executor, Config}
pub mod Sheds

-- `http.Handler` for one response writer, by the context of the request.
abbrev pub Handler : Type 0 → Type 0
Handler W = Context W → W → W

abbrev pub status_too_many_requests : ℕ
status_too_many_requests = 429

module _ {W : Type 0} (clock : Clock W) (inflights executing queued : Cell W ℤ)
    (executor : Executor W) (limiter : Limiter W) (write_header : ℕ → W → W) where
  abbrev pub config : Config W
  config = record {
    limiter = limiter;
    executor = executor;
    execution_result_policy = λ ctx err. no_failure_policy err;
  }

  unfoldable pub shedder : Runner W
  shedder = runner_chain (Limited.middleware clock inflights executing queued config ∷ [])

  -- The function that the handler passes to the runner.
  abbrev pub serve : Handler W → Context W → Func W
  serve next request ctx w = (none, next request w)

  -- What follows the runner.
  abbrev pub respond : Option Error × W → W
  respond (none, w) = w
  respond (some err, w) = write_header status_too_many_requests w

  unfoldable pub concurrencylimit_middleware : Handler W → Handler W
  concurrencylimit_middleware next request w = respond (shedder request (serve next request) w)
