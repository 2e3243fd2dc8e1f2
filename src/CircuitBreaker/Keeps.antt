-- ===== src/CircuitBreaker/Keeps.antt =====
-- What every call of the circuit breaker keeps, whatever runner it is around.
use goresilience.Prelude.{Bool, true, false, Option, if◌then◌else◌}
use goresilience.Errors.{Error}
use goresilience.Runtime.{Cell, Clock}
use goresilience.Metrics.{Measurement, Recorder, observe, Context, recorder_from_context}
use goresilience.Runner.{Func, Runner}
use goresilience.Float64.{Float64}
use goresilience.CircuitBreaker.Window.Shape.{IsWellFormed, reset-IsWellFormed, inc-IsWellFormed}
use goresilience.CircuitBreaker.Window.Totals.{IsCounted, reset-IsCounted, inc-IsCounted}
use goresilience.CircuitBreaker.{
  State, state_open, state_half_open, state_closed, same_state, CircuitBreaker, move_state,
  pre_decide, post_decide, execute_in, record_result, run,
}

-- The window can be slid without a panic, and counts no more errors than requests.
pub record IsSound (c : CircuitBreaker) : Type 0 where
  pub shape : IsWellFormed c.recorder
  pub counted : IsCounted c.recorder.window

module _ {W F : Type 0} (fl : Float64 F) (clock : Clock W) (this : Cell W CircuitBreaker)
    (rec : Recorder W)
    (rec_keeps : (m : Measurement) (w : W)
      → IsSound (this.get w)
      → IsSound (this.get (observe rec m w))) where
  abbrev Sound : W → Type 0
  Sound w = IsSound (this.get w)

  keeps_if : (b : Bool) (v w : W) → Sound v → Sound w → Sound (if b then v else w)
  keeps_if true v w sv sw = sv
  keeps_if false v w sv sw = sw

  move_state-IsSound : (s : State) (w : W) → Sound w → Sound (move_state fl clock this s rec w)
  unfolding move_state
  move_state-IsSound s w h = keeps_if (same_state (this.get w).state s) w _ h (
      rw (this.get-put _ _) (record {
        shape = reset-IsWellFormed _ (rec_keeps _ w h).shape.two;
        counted = reset-IsCounted _;
      }))

  record_result-IsSound :
      (err : Option Error) (w : W) → Sound w → Sound (record_result fl clock this err w)
  record_result-IsSound err w h = rw (this.get-put _ w) (record {
    shape = inc-IsWellFormed err (this.get w).recorder h.shape;
    counted = inc-IsCounted err (this.get w).recorder h.counted;
  })

  pre_decide-IsSound : (s : State) (w : W) → Sound w → Sound (pre_decide fl clock this s rec w)
  unfolding pre_decide
  pre_decide-IsSound state_open w h = keeps_if _ _ w (move_state-IsSound state_half_open w h) h
  pre_decide-IsSound state_half_open w h = h
  pre_decide-IsSound state_closed w h = h

  post_decide-IsSound : (s : State) (w : W) → Sound w → Sound (post_decide fl clock this s rec w)
  unfolding post_decide
  post_decide-IsSound state_open w h = h
  post_decide-IsSound state_half_open w h = keeps_if _ _ w (move_state-IsSound _ w h) h
  post_decide-IsSound state_closed w h = keeps_if _ _ w (move_state-IsSound state_open w h) h

  execute_in-IsSound :
      (s : State) (runner : Runner W) (ctx : Context W) (f : Func W) (w : W)
      → ((v : W) → Sound v → Sound (runner ctx f v).1)
      → Sound w
      → Sound (execute_in fl clock this s runner ctx f w).1
  unfolding execute_in
  execute_in-IsSound state_open runner ctx f w k h = h
  execute_in-IsSound state_half_open runner ctx f w k h = k w h
  execute_in-IsSound state_closed runner ctx f w k h = k w h

module _ {W F : Type 0} (fl : Float64 F) (clock : Clock W) (this : Cell W CircuitBreaker) where
  -- A call keeps the breaker sound, on every path, if the recorder and the runner do: these may call
  -- the same breaker again, and stand for what other goroutines do to it meanwhile.
  pub run-IsSound :
      (runner : Runner W) (ctx : Context W) (f : Func W)
      → ((m : Measurement) (v : W)
          → IsSound (this.get v)
          → IsSound (this.get (observe (recorder_from_context ctx).0 m v)))
      → ((v : W) → IsSound (this.get v) → IsSound (this.get (runner ctx f v).1))
      → (w : W) → IsSound (this.get w)
      → IsSound (this.get (run fl clock this runner ctx f w).1)
  unfolding run
  run-IsSound runner ctx f rk k w h =
      let rec = (recorder_from_context ctx).0 in
      let v = pre_decide fl clock this (this.get w).state rec w in
      let x = execute_in fl clock this (this.get v).state runner ctx f v in
      post_decide-IsSound fl clock this rec rk _ (record_result fl clock this x.0 x.1) (
        record_result-IsSound fl clock this rec rk x.0 x.1 (
          execute_in-IsSound fl clock this rec rk _ runner ctx f v k
            (pre_decide-IsSound fl clock this rec rk _ w h)))
