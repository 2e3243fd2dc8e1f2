-- ===== src/Tests/Flights.antt =====
-- Calls of the concurrency limit runner that overlap; the limiter answers the number of its samples.
use native.Mathlib.Nat.{le_refl}
use goresilience.Prelude.{ℕ, zero, ◌+◌, ◌<◌, ◌≤◌, ◌≡◌, ◌≢◌, refl, Option, none, some, length, arith}
use goresilience.Prelude.Int.{pos}
use goresilience.Prelude.Families.{tally}
use goresilience.Errors.{Error, external}
use goresilience.Runtime.{Clock}
use goresilience.ConcurrencyLimit.Limit.{Result, success, ignore, Limiter}
use goresilience.ConcurrencyLimit.Workers.{new_worker_pool}
use goresilience.ConcurrencyLimit.Limited.Concurrent.{
  answered, sampling, returned, System, not_called, made, after_policy, enter, count_in, submit,
  dequeue, show_queued, begin, show_begun, run, end, show_ended, answer, count_out, show_left,
  judge, Steps, here, more,
}
use goresilience.ConcurrencyLimit.Limited.Concurrent.Answers.{Answer, told, Steps-answers}
use goresilience.ConcurrencyLimit.Limited.Concurrent.Counts.{in_flight, in_execution, Steps-Counted}
use goresilience.ConcurrencyLimit.Limited.Concurrent.Stale.{stale_limit}

abbrev clock : Clock ℕ
clock = record { now = λ w. w; sleep = λ d w. w + d; sleep_lasts = λ d w. le_refl (w + d) }

abbrev limiter : Limiter ℕ
limiter = record {
  measure_sample = λ start queued inflight r w. (pos w, w + 1);
  get_limit = λ w. (pos w, w);
}

-- An error of the first call is ignored.
abbrev policy : ℕ → Option Error → Result
policy zero (some e) = ignore
policy c err = success

first : 0 < 2
first = omega arith

second : 1 < 2
second = omega arith

-- The first call runs and fails, the second one is in flight meanwhile.
abbrev ran : (s : System ℕ) × Steps clock limiter policy 2 (made 4 new_worker_pool) s
ran =
    let s =
      more (more (more here (enter 0 first refl)) (count_in 0 first refl))
        (submit 0 (pos 1) first refl) in
    let s =
      more (more (more s (enter 1 second refl)) (count_in 1 second refl))
        (submit 1 (pos 2) second refl) in
    let s =
      more (more (more s (dequeue 0 first refl)) (show_queued 0 first refl)) (begin 0 first refl) in
    let s =
      more (more s (show_begun 0 (pos 1) first refl)) (run 0 (some (external 3)) first refl) in
    (_, s)

abbrev returned_first : (s : System ℕ) × Steps clock limiter policy 2 (made 4 new_worker_pool) s
unfolding after_policy
returned_first =
    let s =
      more (more ran.1 (end 0 (some (external 3)) first refl))
        (show_ended 0 (some (external 3)) (pos 0) first refl) in
    let s =
      more (more s (answer 0 (some (external 3)) first refl refl))
        (count_out 0 (some (external 3)) first refl) in
    let s =
      more (more s (show_left 0 (some (external 3)) (pos 1) first refl))
        (judge 0 (some (external 3)) (pos 1) first refl) in
    (_, s)

Steps-answers_example :
    Answer (returned_first.0.calls 0) (some (external 3))
    × (length (returned_first.0.calls 0).outcomes ≤ 1)
    × ((returned_first.0.calls 0).samples ≡ told (policy 0 (some (external 3))))
unfolding returned_first
Steps-answers_example =
    Steps-answers clock limiter policy 2 0 (some (external 3)) returned_first.1 refl

Steps-Counted_example :
    (ran.0.inflights ≡ pos (tally in_flight 2 ran.0.calls))
    × (ran.0.executing ≡ pos (tally in_execution 2 ran.0.calls))
Steps-Counted_example = Steps-Counted clock limiter policy 2 ran.1

-- Both calls have their answers, and are counted.
abbrev both : System ℕ
both = record (made 4 new_worker_pool) {
  calls = λ c. record not_called { caller = answered none };
  inflights = pos 2;
}

apart : ◌≢◌ {A = ℕ} 0 1
apart = omega arith

-- Both calls are about to tell the limiter that they have succeeded.
abbrev telling : System ℕ
telling = record (made 4 new_worker_pool) {
  calls = λ c. record not_called { caller = sampling none (pos 0) success };
}

stale_limit_example :
    (t : System ℕ) × Steps clock limiter policy 2 telling t
    × (t.world ≡ 6)
    × (length t.pool.worker_stoppers ≡ 4)
    × ((t.calls 0).caller ≡ returned none)
    × ((t.calls 1).caller ≡ returned none)
unfolding new_worker_pool
stale_limit_example =
    stale_limit clock limiter policy 2 telling 0 1 none none (pos 0) (pos 0) success success 4 first
      second apart refl refl refl refl
