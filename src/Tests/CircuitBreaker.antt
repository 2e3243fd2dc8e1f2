-- ===== src/Tests/CircuitBreaker.antt =====
-- The circuit breaker around a runner that fails or succeeds, with windows of two buckets.
use goresilience.Prelude.{ℕ, ◌+◌, ◌≡◌, refl, some, [], ◌∷◌, arith}
use goresilience.Prelude.Int.{pos}
use goresilience.Errors.{external}
use goresilience.Metrics.{recorder_from_context}
use goresilience.Runner.{Func, command}
use goresilience.CircuitBreaker.Window.{BucketWindow, empty, total_requests, total_errors}
use goresilience.CircuitBreaker.{
  State, state_open, state_half_open, state_closed, Config, CircuitBreaker, since_state_start,
  move_state, same_state, post_decide_state, run,
}
use goresilience.CircuitBreaker.Transitions.{settle, verdict, IsSmall, post_decide_state-verdict}
use goresilience.CircuitBreaker.Probe.{at_probe, run-probes}
use goresilience.CircuitBreaker.Keeps.{IsSound}
use goresilience.Tests.World.{World, clock, own_cell, logged}
use goresilience.Tests.Fraction.{fractions, fractions-CountLaws}

abbrev config : Config
config = record {
  error_percent_threshold_to_open = pos 50;
  minimum_request_to_open = pos 2;
  successful_required_on_half_open = pos 1;
  wait_duration_in_open_state = pos 5;
  metrics_sliding_window_bucket_quantity = pos 2;
  metrics_bucket_duration = pos 1;
}

-- Two requests, one of them failed.
abbrev half_failed : BucketWindow
half_failed = record {
  next_index_to_replace = 1;
  window_size = 2;
  window = record { total = 2; errs = 1 } ∷ empty ∷ [];
  current = 0;
}

abbrev at_state : State → ℕ → World CircuitBreaker
at_state s time = record {
  time = time;
  own = record { cfg = config; recorder = half_failed; state = s; state_started = 1 };
  log = [];
}

abbrev fails : Func (World CircuitBreaker)
fails ctx w = (some (external 7), record w { time = w.time + 3 })

half_failed-IsSmall : (s : State) (time : ℕ) → IsSmall 50 (at_state s time).own
unfolding total_requests
half_failed-IsSmall s time = record {
  percent = refl;
  in_range = omega arith;
  required = omega arith;
  minimum = omega arith;
  few = omega arith;
  counted = omega arith;
}

-- At the threshold itself the circuit opens.
post_decide_state-verdict_example :
    (post_decide_state fractions clock own_cell
      (recorder_from_context logged).0
      (at_state state_closed 4)).own
    ≡ settle state_open 4 (at_state state_closed 4).own
unfolding verdict recorder_from_context total_requests total_errors
post_decide_state-verdict_example =
    post_decide_state-verdict fractions clock own_cell (recorder_from_context logged).0
      (λ m w. refl) fractions-CountLaws 50 (at_state state_closed 4)
      (half_failed-IsSmall state_closed 4)

-- The probe fails: the circuit opens again.
run-probes_example :
    let w = at_state state_open 7 in
    let r = run fractions clock own_cell command logged fails w in
    ((at_probe fractions clock own_cell logged w).own.state ≡ state_half_open)
    × (r.0 ≡ some (external 7))
    × (r.1.own.state ≡ state_open)
    × (total_requests r.1.own.recorder ≡ 0)
unfolding since_state_start recorder_from_context command run move_state same_state
run-probes_example =
    run-probes fractions clock own_cell command logged fails (λ m v. refl) (λ v. refl)
      fractions-CountLaws 50 (at_state state_open 7) (half_failed-IsSmall state_open 7)
      (omega arith) refl refl refl

half_failed-IsSound : (s : State) (time : ℕ) → IsSound (at_state s time).own
half_failed-IsSound s time = record {
  shape = record { sized = refl; two = omega arith; inside = omega arith; next = omega arith };
  counted = omega arith;
}
