-- ===== src/Tests/Overlap.antt =====
-- Calls of a circuit breaker that overlap, on short runs.
use goresilience.Prelude.{[], ◌∷◌, ◌≡◌, refl, some, arith}
use goresilience.Prelude.Int.{pos}
use goresilience.Errors.{external}
use goresilience.Metrics.{circuitbreaker_state}
use goresilience.CircuitBreaker.Window.{
  BucketWindow, new_bucket_window, slide, sized, reset, inc, count, sum_total, sum_errs,
  total_requests, total_errors,
}
use goresilience.CircuitBreaker.{
  State, state_open, state_half_open, state_closed, state_string, CircuitBreaker,
  new_circuit_breaker, defaults, same_state, move_state, since_state_start, error_rate,
  enough_requests,
}
use goresilience.CircuitBreaker.Concurrent.{
  returned, half_opening, executing, System, made, move, after_pre, after_execute, after_post,
  after_rate, required, Step, enter, choose, finish, record_result, evaluate, total, rate, move_on,
  Steps, here, more,
}
use goresilience.CircuitBreaker.Concurrent.Returned.{Settled, Steps-Settled}
use goresilience.CircuitBreaker.Concurrent.Changes.{Walk, Steps-Walk}
use goresilience.CircuitBreaker.Concurrent.Stale.{cut_short}
use goresilience.CircuitBreaker.Concurrent.Sound.{Steps-slides}
use goresilience.CircuitBreaker.Keeps.{IsSound}
use goresilience.Tests.Fraction.{fractions, fractions-CountLaws}

abbrev breaker : State → CircuitBreaker
breaker st = record {
  cfg = record {
    error_percent_threshold_to_open = pos 50;
    minimum_request_to_open = pos 1;
    successful_required_on_half_open = pos 1;
    wait_duration_in_open_state = pos 5;
    metrics_sliding_window_bucket_quantity = pos 2;
    metrics_bucket_duration = pos 1;
  };
  recorder = reset (sized 2);
  state = st;
  state_started = 1;
}

-- One call fails, and opens the circuit.
abbrev failed : (t : System) × Steps fractions (made (breaker state_closed) 4) t
unfolding after_pre after_execute after_post after_rate required move move_state same_state
    enough_requests error_rate total_requests total_errors sum_total sum_errs inc count reset
failed = (
  _,
  more
      (more
        (more
          (more
            (more
              (more (more (more here (enter 0 refl)) (choose 0 refl))
                (finish 0 (some (external 3)) refl))
              (record_result 0 _ refl))
            (evaluate 0 _ refl))
          (total 0 _ _ refl))
        (rate 0 _ _ refl))
      (move_on 0 _ _ refl),
)

Steps-Settled_example : Settled (failed.0.calls 0).outcomes (some (external 3))
unfolding failed
Steps-Settled_example = Steps-Settled fractions 0 (some (external 3)) failed.1 refl

Steps-Walk_example : Walk failed.0.changes state_open
unfolding failed
Steps-Walk_example = Steps-Walk fractions refl failed.1

cut_short_example :
    (u : System) × (t : System) × Steps fractions (made (breaker state_open) 9) u
    × Step fractions u t
    × (u.breaker.state ≡ state_open)
    × (u.breaker.state_started ≡ u.now)
    × (u.changes
        ≡ circuitbreaker_state (state_string state_open)
          ∷ circuitbreaker_state (state_string state_half_open)
          ∷ [])
    × (u.calls 1
        ≡ record { caller = returned (some (external 3)); outcomes = some (external 3) ∷ [] })
    × (u.calls 0 ≡ record { caller = half_opening; outcomes = [] })
    × (t.calls 0 ≡ record { caller = executing; outcomes = [] })
    × (t.breaker.state ≡ state_half_open)
    × (t.changes ≡ circuitbreaker_state (state_string state_half_open) ∷ u.changes)
    × (t.now ≡ u.now)
unfolding reset since_state_start
cut_short_example =
    cut_short fractions fractions-CountLaws (made (breaker state_open) 9) 0 1 (external 3)
      (omega arith) refl refl refl (λ e. omega (arith, e)) refl refl

Steps-slides_example :
    IsSound failed.0.breaker × ((r : BucketWindow) × (slide failed.0.breaker.recorder ≡ some r))
unfolding new_circuit_breaker defaults new_bucket_window reset
Steps-slides_example =
    Steps-slides fractions (breaker state_closed).cfg 1 4 2 (breaker state_closed) refl
      (omega arith) refl failed.1
