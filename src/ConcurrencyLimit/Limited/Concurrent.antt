-- ===== src/ConcurrencyLimit/Limited/Concurrent.antt =====
-- concurrencylimit/concurrencylimit.go: calls of `Run` that overlap, as steps in any order. A call has
-- the goroutine of its caller and that of its job, the function that is passed to the executor. The
-- executor is known by what it promises: it runs the job once at most, at any time, and returns what the
-- job returned, or the error of a rejected execution. The policy is given the number of the call for its
-- context. What a method does under its lock is one step.
use goresilience.Prelude.{ℕ, ◌<◌, ◌≡◌, ◌≢◌, Option, none, some, List, [], ◌∷◌}
use goresilience.Prelude.Int.{ℤ, pos, ◌+ℤ◌, ◌-ℤ◌}
use goresilience.Prelude.Families.{write}
use goresilience.Errors.{Error, err_rejected_execution}
use goresilience.Runtime.{Clock}
use goresilience.Metrics.{
  Measurement, inflight_executions, executing_executions, concurrency_limit_result, limiter_limit,
  queued_time,
}
use goresilience.ConcurrencyLimit.Limit.{Result, success, failure, ignore, result_string, Limiter}
use goresilience.ConcurrencyLimit.Workers.{WorkerPool, new_worker_pool, set_worker_quantity}
pub mod Counts
pub mod Answers
pub mod Stale

-- Where the goroutine of a call of `Run` stands.
pub data Caller : Type 0 where
  outside : Caller  -- `Run` is not called yet
  started : Caller  -- before `inflights.Inc`
  counted : ℤ → Caller  -- before the new count is measured
  waiting : Caller  -- in `Execute`
  answered : Option Error → Caller  -- before `inflights.Dec`
  leaving : Option Error → ℤ → Caller  -- before the new count is measured
  judging : Option Error → ℤ → Caller  -- before `ExecutionResultPolicy`
  sampling : Option Error → ℤ → Result → Caller  -- before `MeasureSample`
  sampled : Option Error → ℤ → Caller  -- before the limit is measured
  tuning : Option Error → ℤ → Caller  -- before `SetWorkerQuantity`
  returned : Option Error → Caller

-- Where the job of a call stands.
pub data Job : Type 0 where
  unsent : Job
  submitted : Job  -- with the executor
  dequeued : Job  -- before the time in the queue is measured
  beginning : Job  -- before `executing.Inc`
  begun : ℤ → Job  -- before the new count is measured
  running : Job  -- in the next runner
  ran : Option Error → Job  -- before `executing.Dec`
  ending : Option Error → ℤ → Job  -- before the new count is measured
  ended : Option Error → Job

pub record Call : Type 0 where
  pub start : ℕ
  pub caller : Caller
  pub job : Job
  pub queued_duration : ℤ
  pub outcomes : List (Option Error)  -- what its runs of the next runner have returned
  pub samples : List Result  -- what it has told the limiter

-- `world` has the clock and the variables of the limiter; what is measured has the last one first.
pub record System (W : Type 0) : Type 0 where
  pub calls : ℕ → Call
  pub inflights : ℤ
  pub executing : ℤ
  pub world : W
  pub pool : WorkerPool
  pub measured : List Measurement

abbrev pub not_called : Call
not_called = record {
  start = 0;
  caller = outside;
  job = unsent;
  queued_duration = pos 0;
  outcomes = [];
  samples = [];
}

module _ {W : Type 0} where
  -- The new runner, with the executor that has the pool.
  abbrev pub made : W → WorkerPool → System W
  made w p = record {
    calls = λ c. not_called;
    inflights = pos 0;
    executing = pos 0;
    world = w;
    pool = p;
    measured = [];
  }

  abbrev pub become : ℕ → Call → System W → System W
  become c q s = record s { calls = write s.calls c q }

  abbrev pub stand : ℕ → Caller → System W → System W
  stand c at s = become c (record (s.calls c) { caller = at }) s

  abbrev pub job_at : ℕ → Job → System W → System W
  job_at c at s = become c (record (s.calls c) { job = at }) s

  abbrev pub shows : Measurement → System W → System W
  shows m s = record s { measured = m ∷ s.measured }

-- What follows the policy.
unfoldable pub after_policy : Option Error → ℤ → Result → Caller
after_policy err n ignore = returned err
after_policy err n result = sampling err n result

module _ {W : Type 0} (clock : Clock W) (limiter : Limiter W) (policy : ℕ → Option Error → Result)
    (calls : ℕ) where
  -- A call that tells the limiter its sample, and the answer.
  unfoldable pub tell_sample : ℕ → Option Error → ℤ → Result → System W → System W
  tell_sample c err n result s =
      let q = s.calls c in
      let r = limiter.measure_sample q.start q.queued_duration n result s.world in
      record (become c (record q { caller = sampled err r.0; samples = result ∷ q.samples }) s) {
        world = r.1;
      }

  -- `calls` bounds the numbers of the calls.
  pub data Step (s : System W) : System W → Type 0 where
    pass : (d : ℕ) → Step s (record s { world = clock.sleep d s.world })
    enter :
        (c : ℕ)
        → c < calls
        → (s.calls c).caller ≡ outside
        → Step s (become c (record (s.calls c) { start = clock.now s.world; caller = started }) s)
    count_in :
        (c : ℕ)
        → c < calls
        → (s.calls c).caller ≡ started
        → Step s (record (stand c (counted (s.inflights +ℤ pos 1)) s) {
          inflights = s.inflights +ℤ pos 1;
        })
    submit :
        (c : ℕ) (n : ℤ)
        → c < calls
        → (s.calls c).caller ≡ counted n
        → Step s (
            shows
              (inflight_executions n)
              (become c (record (s.calls c) { caller = waiting; job = submitted }) s))
    dequeue :
        (c : ℕ)
        → c < calls
        → (s.calls c).job ≡ submitted
        → Step s (
            become c
              (record (s.calls c) {
                job = dequeued;
                queued_duration = pos (clock.now s.world) -ℤ pos (s.calls c).start;
              })
              s)
    show_queued :
        (c : ℕ)
        → c < calls
        → (s.calls c).job ≡ dequeued
        → Step s (shows (queued_time (s.calls c).start) (job_at c beginning s))
    begin :
        (c : ℕ)
        → c < calls
        → (s.calls c).job ≡ beginning
        → Step s (record (job_at c (begun (s.executing +ℤ pos 1)) s) {
          executing = s.executing +ℤ pos 1;
        })
    show_begun :
        (c : ℕ) (n : ℤ)
        → c < calls
        → (s.calls c).job ≡ begun n
        → Step s (shows (executing_executions n) (job_at c running s))
    run :
        (c : ℕ) (err : Option Error)
        → c < calls
        → (s.calls c).job ≡ running
        → Step s (
            become c
              (record (s.calls c) { job = ran err; outcomes = err ∷ (s.calls c).outcomes })
              s)
    end :
        (c : ℕ) (err : Option Error)
        → c < calls
        → (s.calls c).job ≡ ran err
        → Step s (record (job_at c (ending err (s.executing -ℤ pos 1)) s) {
          executing = s.executing -ℤ pos 1;
        })
    show_ended :
        (c : ℕ) (err : Option Error) (n : ℤ)
        → c < calls
        → (s.calls c).job ≡ ending err n
        → Step s (shows (executing_executions n) (job_at c (ended err) s))
    answer :
        (c : ℕ) (err : Option Error)
        → c < calls
        → (s.calls c).caller ≡ waiting
        → (s.calls c).job ≡ ended err
        → Step s (stand c (answered err) s)
    reject :
        (c : ℕ)
        → c < calls
        → (s.calls c).caller ≡ waiting
        → Step s (stand c (answered (some err_rejected_execution)) s)
    count_out :
        (c : ℕ) (err : Option Error)
        → c < calls
        → (s.calls c).caller ≡ answered err
        → Step s (record (stand c (leaving err (s.inflights -ℤ pos 1)) s) {
          inflights = s.inflights -ℤ pos 1;
        })
    show_left :
        (c : ℕ) (err : Option Error) (n : ℤ)
        → c < calls
        → (s.calls c).caller ≡ leaving err n
        → Step s (shows (inflight_executions n) (stand c (judging err n) s))
    judge :
        (c : ℕ) (err : Option Error) (n : ℤ)
        → c < calls
        → (s.calls c).caller ≡ judging err n
        → Step s (
            shows
              (concurrency_limit_result (result_string (policy c err)))
              (stand c (after_policy err n (policy c err)) s))
    tell :
        (c : ℕ) (err : Option Error) (n : ℤ) (result : Result)
        → c < calls
        → (s.calls c).caller ≡ sampling err n result
        → Step s (tell_sample c err n result s)
    show_limit :
        (c : ℕ) (err : Option Error) (limit : ℤ)
        → c < calls
        → (s.calls c).caller ≡ sampled err limit
        → Step s (shows (limiter_limit limit) (stand c (tuning err limit) s))
    tune :
        (c : ℕ) (err : Option Error) (limit : ℤ)
        → c < calls
        → (s.calls c).caller ≡ tuning err limit
        → Step s (record (stand c (returned err) s) { pool = set_worker_quantity limit s.pool })

  -- Any further steps.
  pub data Steps (s : System W) : System W → Type 0 where
    here : Steps s s
    more : {t u : System W} → Steps s t → Step t u → Steps s u
