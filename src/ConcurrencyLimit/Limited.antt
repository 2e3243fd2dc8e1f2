-- ===== src/ConcurrencyLimit/Limited.antt =====
-- concurrencylimit/concurrencylimit.go: the runner. Its limiter and its executor are interfaces; the
-- local variable `queuedDuration`, which the job writes, is a variable of the program.
use goresilience.Prelude.{ℕ, Option}
use goresilience.Prelude.Int.{ℤ, pos, ◌+ℤ◌, ◌-ℤ◌}
use goresilience.Errors.{Error}
use goresilience.Runtime.{Effect, Cell, ◌>>=◌, ◌>>◌, return, perform, modify, Clock}
use goresilience.Metrics.{
  Recorder, inflight_executions, executing_executions, concurrency_limit_result, limiter_limit,
  queued_time, observe, Context, recorder_from_context,
}
use goresilience.Runner.{Func, Runner, Middleware, sanitize_runner}
use goresilience.ConcurrencyLimit.Limit.{Result, success, failure, ignore, result_string, Limiter}
pub mod Counters
pub mod Tuned
pub mod Settings
pub mod Concurrent

-- `execute.Executor`
pub record Executor (W : Type 0) : Type 0 where
  pub execute : Context W → Effect W (Option Error) → Effect W (Option Error)
  pub set_worker_quantity : ℤ → W → W

pub record Config (W : Type 0) : Type 0 where
  pub limiter : Limiter W
  pub executor : Executor W
  pub execution_result_policy : Context W → Option Error → Result

-- `atomicCounter`: what the methods return is the new count.
module _ {W : Type 0} (counter : Cell W ℤ) where
  unfoldable pub inc : Effect W ℤ
  inc w = let c = counter.get w +ℤ pos 1 in (c, counter.put c w)

  unfoldable pub dec : Effect W ℤ
  dec w = let c = counter.get w -ℤ pos 1 in (c, counter.put c w)

module _ {W : Type 0} (clock : Clock W) (inflights executing : Cell W ℤ) (queued : Cell W ℤ)
    (cfg : Config W) where
  -- The function that is passed to the executor.
  unfoldable pub job : ℕ → Recorder W → Runner W → Context W → Func W → Effect W (Option Error)
  unfolding inc dec
  job start rec runner ctx f = do
    perform (λ w. queued.put (pos (clock.now w) -ℤ pos start) w)
    perform (observe rec (queued_time start))
    now_executing ← inc executing
    perform (observe rec (executing_executions now_executing))
    err ← runner ctx f
    still_executing ← dec executing
    perform (observe rec (executing_executions still_executing))
    return err

  -- What follows the policy: nothing on `ResultIgnore`.
  unfoldable pub measure : ℕ → Recorder W → ℤ → Result → W → W
  measure start rec inflight ignore w = w
  measure start rec inflight result w =
      let r = cfg.limiter.measure_sample start (queued.get w) inflight result w in
      cfg.executor.set_worker_quantity r.0 (observe rec (limiter_limit r.0) r.1)

  -- From the submission of the job to the count of what is still in flight.
  unfoldable pub submit :
      ℕ → Recorder W → Runner W → Context W → Func W → Effect W (Option Error × ℤ)
  unfolding inc dec job
  submit start rec runner ctx f = do
    now_inflight ← inc inflights
    perform (observe rec (inflight_executions now_inflight))
    perform (queued.put (pos 0))
    err ← cfg.executor.execute ctx (job start rec runner ctx f)
    still_inflight ← dec inflights
    perform (observe rec (inflight_executions still_inflight))
    return (err, still_inflight)

  unfoldable pub run : Runner W → Runner W
  unfolding submit measure
  run runner ctx f w =
      let start = clock.now w in
      let rec = (recorder_from_context ctx).0 in
      let r = submit start rec runner ctx f w in
      let result = cfg.execution_result_policy ctx r.0.0 in
      let measured = observe rec (concurrency_limit_result (result_string result)) r.1 in
      (r.0.0, measure start rec r.0.1 result measured)

  -- The initial limit, which `NewMiddleware` sets before it returns the middleware.
  unfoldable pub set_initial_limit : W → W
  set_initial_limit w = let r = cfg.limiter.get_limit w in cfg.executor.set_worker_quantity r.0 r.1

  unfoldable pub middleware : Middleware W
  unfolding run
  middleware next = run (sanitize_runner next)
