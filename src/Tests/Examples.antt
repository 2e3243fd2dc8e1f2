-- ===== src/Tests/Examples.antt =====
-- The chains of the example programs: one call of each.
use native.Mathlib.Nat.{le_refl}
use goresilience.Prelude.{
  ℕ, ◌+◌, ◌≡◌, refl, zero, suc, true, false, Option, none, some, [], ◌∷◌, if◌then◌else◌, ltb,
}
use goresilience.Prelude.Int.{ℤ, pos}
use goresilience.Errors.{Error, external, err_circuit_open, err_rejected_execution}
use goresilience.Runtime.{Effect, Cell, Clock}
use goresilience.Metrics.{measuring, retry, command_execution, Context, recorder_from_context}
use goresilience.ConcurrencyLimit.Policy.{no_failure_policy}
use goresilience.Runner.{Func, runner_chain, sanitize_runner}
use goresilience.CircuitBreaker.{
  State, state_open, CircuitBreaker, since_state_start, record_result,
}
use goresilience.CircuitBreaker.Window.{empty}
use goresilience.Retry
use goresilience.Retry.{Backoff}
use goresilience.Hystrix.{HystrixConf, new_hystrix}
use goresilience.Hystrix.Open.{new_hystrix-open}
use goresilience.ConcurrencyLimit.Limit.{new_static}
use goresilience.ConcurrencyLimit.Limited
use goresilience.ConcurrencyLimit.Limited.{Executor}
use goresilience.Http.{Handler, status_too_many_requests, shedder, concurrencylimit_middleware}
use goresilience.Tests.World.{World, clock, own_cell, background, write_log}
use goresilience.Tests.Fraction.{Fraction, fractions}

abbrev lib : Backoff (World CircuitBreaker) Fraction
lib = record {
  exp2 = λ x. x;
  round_to_millisecond = λ d. d;
  random = λ w. (record { plus = 1; minus = 0; den = 2 }, w);
}

-- A bulkhead with a free worker, and a timeout that is long enough.
abbrev hystrix : HystrixConf (World CircuitBreaker) Fraction
hystrix = record {
  circuitbreaker = own_cell;
  bulkhead = sanitize_runner;
  retry = record { wait_base = pos 0; disable_backoff = true; times = pos 1 };
  timeout = sanitize_runner;
  id = "hystrix-example";
  metrics_recorder = some (measuring write_log "");
}

abbrev breaker_at : State → World CircuitBreaker
breaker_at s = record {
  time = 6;
  own = record {
    cfg = record {
      error_percent_threshold_to_open = pos 50;
      minimum_request_to_open = pos 2;
      successful_required_on_half_open = pos 1;
      wait_duration_in_open_state = pos 5;
      metrics_sliding_window_bucket_quantity = pos 2;
      metrics_bucket_duration = pos 1;
    };
    recorder = record {
      next_index_to_replace = 1;
      window_size = 2;
      window = empty ∷ empty ∷ [];
      current = 0;
    };
    state = s;
    state_started = 1;
  };
  log = [];
}

abbrev fails : Func (World CircuitBreaker)
fails ctx w = (some (external 7), record w { time = w.time + 3 })

new_hystrix-open_example :
    new_hystrix fractions clock lib hystrix background fails (breaker_at state_open) ≡ (
      some err_circuit_open,
      write_log "hystrix-example"
          (command_execution 6 false)
          (record_result fractions clock own_cell (some err_circuit_open) (breaker_at state_open)),
    )
unfolding since_state_start
new_hystrix-open_example =
    new_hystrix-open fractions clock lib hystrix write_log "" background fails
      (breaker_at state_open) refl refl refl

-- Fails until the time 10.
abbrev fails_early : Func (World CircuitBreaker)
fails_early ctx w =
    (if ltb w.time 10 then some (external 7) else none, record w { time = w.time + 1 })

-- The counters of the runner, and what a client of the server sees.
record Site : Type 0 where
  time : ℕ
  flying : ℤ
  running : ℤ
  waited : ℤ
  header : Option ℕ
  served : ℕ

abbrev site_clock : Clock Site
site_clock = record {
  now = λ w. w.time;
  sleep = λ d w. record w { time = w.time + d };
  sleep_lasts = λ d w. le_refl (w.time + d);
}

abbrev inflights : Cell Site ℤ
inflights = record {
  get = λ w. w.flying;
  put = λ n w. record w { flying = n };
  get-put = λ a w. refl;
  put-put = λ a b w. refl;
}

abbrev executing : Cell Site ℤ
executing = record {
  get = λ w. w.running;
  put = λ n w. record w { running = n };
  get-put = λ a w. refl;
  put-put = λ a b w. refl;
}

abbrev queued : Cell Site ℤ
queued = record {
  get = λ w. w.waited;
  put = λ n w. record w { waited = n };
  get-put = λ a w. refl;
  put-put = λ a b w. refl;
}

-- One request is served, and the others are rejected.
abbrev at_most_one : ℕ → Effect Site (Option Error) → Effect Site (Option Error)
at_most_one zero j w = j w
at_most_one (suc n) j w = (some err_rejected_execution, w)

abbrev only_one : Executor Site
only_one = record { execute = λ ctx j w. at_most_one w.served j w; set_worker_quantity = λ n w. w }

abbrev request : Context Site
request = record { done = λ w. false; recorder = none }

abbrev page : Handler Site
page ctx w = record w { served = w.served + 1 }

abbrev idle_site : Site
idle_site = record {
  time = 5;
  flying = pos 0;
  running = pos 0;
  waited = pos 0;
  header = none;
  served = 1;
}

abbrev write_header : ℕ → Site → Site
write_header status w = record w { header = some status }

-- A second request gets the status 429, and the page is not served again.
second_request :
    let after =
      concurrencylimit_middleware site_clock inflights executing queued only_one
        (new_static (pos 2))
        write_header
        page
        request
        idle_site in
    (after.header ≡ some status_too_many_requests) × (after.served ≡ 1)
unfolding concurrencylimit_middleware shedder runner_chain Limited.middleware Limited.run
    Limited.submit Limited.measure recorder_from_context no_failure_policy
second_request = (refl, refl)
