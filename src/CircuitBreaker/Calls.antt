-- ===== src/CircuitBreaker/Calls.antt =====
-- What a whole call of the circuit breaker does, around any runner.
use goresilience.Prelude.{◌≡◌, refl, ap, ◌∙◌, false, some}
use goresilience.Prelude.Int.{ltb_ℤ}
use goresilience.Errors.{err_circuit_open}
use goresilience.Runtime.{Cell, Clock}
use goresilience.Metrics.{Recorder, Context, recorder_from_context}
use goresilience.Runner.{Func, Runner}
use goresilience.Float64.{Float64}
use goresilience.CircuitBreaker.{
  State, state_open, state_half_open, state_closed, CircuitBreaker, since_state_start, pre_decide,
  post_decide, execute_in, record_result, run,
}

module _ {W F : Type 0} (fl : Float64 F) (clock : Clock W) (this : Cell W CircuitBreaker) where
  abbrev recorder_of : Context W → Recorder W
  recorder_of ctx = (recorder_from_context ctx).0

  pre_decide-early :
      (s : State) (rec : Recorder W) (w : W)
      → ltb_ℤ (this.get w).wait_duration_in_open_state (since_state_start fl clock this w) ≡ false
      → pre_decide fl clock this s rec w ≡ w
  unfolding pre_decide
  pre_decide-early state_open rec w h = rw h refl
  pre_decide-early state_half_open rec w h = refl
  pre_decide-early state_closed rec w h = refl

  execute_in-open :
      (s : State) (runner : Runner W) (ctx : Context W) (f : Func W) (w : W)
      → s ≡ state_open
      → execute_in fl clock this s runner ctx f w ≡ (some err_circuit_open, w)
  unfolding execute_in
  execute_in-open state_open runner ctx f w e = refl
  execute_in-open state_half_open runner ctx f w e = cc
  execute_in-open state_closed runner ctx f w e = cc

  post_decide-open :
      (s : State) (rec : Recorder W) (w : W)
      → s ≡ state_open
      → post_decide fl clock this s rec w ≡ w
  unfolding post_decide
  post_decide-open state_open rec w e = refl
  post_decide-open state_half_open rec w e = cc
  post_decide-open state_closed rec w e = cc

  -- While the circuit is open and its wait is not over, a call is rejected with the error of an open
  -- circuit, the runner is not called, and nothing changes but the count of the rejection.
  pub run-open_rejects :
      (runner : Runner W) (ctx : Context W) (f : Func W) (w : W)
      → (this.get w).state ≡ state_open
      → ltb_ℤ (this.get w).wait_duration_in_open_state (since_state_start fl clock this w) ≡ false
      → run fl clock this runner ctx f w
        ≡ (some err_circuit_open, record_result fl clock this (some err_circuit_open) w)
  unfolding run
  run-open_rejects runner ctx f w e early =
      let rec = recorder_of ctx in
      rw (pre_decide-early (this.get w).state rec w early) (
        rw (execute_in-open (this.get w).state runner ctx f w e) (
          ap (λ v. (some err_circuit_open, v))
            (post_decide-open _ rec _ (ap (λ c. c.state) (this.get-put _ w) ∙ e))))
