-- ===== src/CircuitBreaker.antt =====
-- circuitbreaker/circuitbreaker.go: the state machine around a runner. The fields of a breaker are a
-- variable of the program; each method is the change that it makes, in the order of the source.
use mathlib.Core.Option
use goresilience.Prelude.{
  ℕ, zero, suc, String, Bool, true, false, ◌&&◌, Option, none, some, if◌then◌else◌,
}
use goresilience.Prelude.Int.{ℤ, pos, negsuc, ◌-ℤ◌, ltb_ℤ}
use goresilience.Errors.{Error, err_circuit_open}
use goresilience.Runtime.{Effect, ◌>>=◌, ◌>>◌, return, perform, Cell, modify, Clock}
use goresilience.Metrics.{Recorder, circuitbreaker_state, observe, Context, recorder_from_context}
use goresilience.Runner.{Func, Runner, Middleware, sanitize_runner}
use goresilience.Float64.{Float64}
use goresilience.CircuitBreaker.Window.{
  BucketWindow, reset, new_bucket_window, inc, total_requests, total_errors,
}
pub mod Window
pub mod Transitions
pub mod Calls
pub mod Probe
pub mod Keeps
pub mod Concurrent

pub data State : Type 0 where
  state_open : State
  state_half_open : State
  state_closed : State

abbrev pub state_string : State → String
state_string state_open = "open"
state_string state_half_open = "halfopen"
state_string state_closed = "closed"

unfoldable pub same_state : State → State → Bool
same_state state_open state_open = true
same_state state_half_open state_half_open = true
same_state state_closed state_closed = true
same_state _ _ = false

-- Durations are in nanoseconds.
pub record Config : Type 0 where
  pub error_percent_threshold_to_open : ℤ
  pub minimum_request_to_open : ℤ
  pub successful_required_on_half_open : ℤ
  pub wait_duration_in_open_state : ℤ
  pub metrics_sliding_window_bucket_quantity : ℤ
  pub metrics_bucket_duration : ℤ

-- `if x == 0 { x = value }`
abbrev or_default : ℕ → ℤ → ℤ
or_default value (pos zero) = pos value
or_default value (pos (suc n)) = pos (suc n)
or_default value (negsuc n) = negsuc n

unfoldable pub defaults : Config → Config
defaults c = record {
  error_percent_threshold_to_open = or_default 50 c.error_percent_threshold_to_open;
  minimum_request_to_open = or_default 20 c.minimum_request_to_open;
  successful_required_on_half_open = or_default 1 c.successful_required_on_half_open;
  wait_duration_in_open_state = or_default 5_000_000_000 c.wait_duration_in_open_state;
  metrics_sliding_window_bucket_quantity = or_default 10 c.metrics_sliding_window_bucket_quantity;
  metrics_bucket_duration = or_default 1_000_000_000 c.metrics_bucket_duration;
}

pub record CircuitBreaker : Type 0 where
  pub cfg : Config
  pub open cfg use *
  pub recorder : BucketWindow
  pub state : State
  pub state_started : ℕ

-- The breaker that the middleware makes at the time `now`; `none` is a panic of `newBucketWindow`.
unfoldable pub new_circuit_breaker : Config → ℕ → Option CircuitBreaker
unfolding defaults
new_circuit_breaker config now =
    Option.map
      (λ window. record {
        cfg = defaults config;
        recorder = window;
        state = state_closed;
        state_started = now;
      })
      (new_bucket_window (defaults config).metrics_sliding_window_bucket_quantity)

module _ {W F : Type 0} (fl : Float64 F) (clock : Clock W) (this : Cell W CircuitBreaker) where
  -- Only if the state changed.
  unfoldable pub move_state : State → Recorder W → W → W
  move_state s rec w =
      if same_state (this.get w).state s
      then w
      else let w' = observe rec (circuitbreaker_state (state_string s)) w in
        modify this
          (λ c. record c { state = s; state_started = clock.now w'; recorder = reset c.recorder })
          w'

  unfoldable pub since_state_start : W → ℤ
  since_state_start w = pos (clock.now w) -ℤ pos (this.get w).state_started

  -- The `switch` of `preDecideState`, on the state that was read.
  unfoldable pub pre_decide : State → Recorder W → W → W
  unfolding move_state since_state_start
  pre_decide state_open rec w =
      if ltb_ℤ (this.get w).wait_duration_in_open_state (since_state_start w)
      then move_state state_half_open rec w
      else w
  pre_decide _ rec w = w

  unfoldable pub pre_decide_state : Recorder W → W → W
  unfolding pre_decide
  pre_decide_state rec w = pre_decide (this.get w).state rec w

  unfoldable pub error_rate : BucketWindow → F
  error_rate b = fl.div (fl.of_int (pos (total_errors b))) (fl.of_int (pos (total_requests b)))

  -- `totalRequests() >= float64(n)`
  unfoldable pub enough_requests : BucketWindow → ℤ → Bool
  enough_requests b n = fl.le (fl.of_int n) (fl.of_int (pos (total_requests b)))

  -- The `switch` of `postDecideState`.
  unfoldable pub post_decide : State → Recorder W → W → W
  unfolding move_state error_rate enough_requests
  post_decide state_open rec w = w
  post_decide state_half_open rec w =
      if enough_requests (this.get w).recorder (this.get w).successful_required_on_half_open
      then move_state
          (if fl.le (error_rate (this.get w).recorder) (fl.of_int (pos 0))
            then state_closed
            else state_open)
          rec w
      else w
  post_decide state_closed rec w =
      if enough_requests (this.get w).recorder (this.get w).minimum_request_to_open
        && fl.le
            (fl.div (fl.of_int (this.get w).error_percent_threshold_to_open) (fl.of_int (pos 100)))
            (error_rate (this.get w).recorder)
      then move_state state_open rec w
      else w

  unfoldable pub post_decide_state : Recorder W → W → W
  unfolding post_decide
  post_decide_state rec w = post_decide (this.get w).state rec w

  -- The `switch` of `execute`.
  unfoldable pub execute_in : State → Runner W → Runner W
  execute_in state_open runner ctx f w = (some err_circuit_open, w)
  execute_in _ runner ctx f w = runner ctx f w

  unfoldable pub execute : Runner W → Runner W
  unfolding execute_in
  execute runner ctx f w = execute_in (this.get w).state runner ctx f w

  -- `c.recorder.inc(err)`
  abbrev pub record_result : Option Error → W → W
  record_result err = modify this (λ c. record c { recorder = inc err c.recorder })

  unfoldable pub run : Runner W → Runner W
  unfolding pre_decide_state post_decide_state execute
  run runner ctx f = do
    perform (pre_decide_state rec)
    err ← execute runner ctx f
    perform (record_result err)
    perform (post_decide_state rec)
    return err
    where
      rec : Recorder W
      rec = (recorder_from_context ctx).0

  -- The runner that `NewMiddleware` returns, around the variable of the breaker.
  unfoldable pub middleware : Middleware W
  unfolding run
  middleware next = run (sanitize_runner next)
