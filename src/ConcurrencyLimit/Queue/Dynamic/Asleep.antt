-- ===== src/ConcurrencyLimit/Queue/Dynamic/Asleep.antt =====
-- The dequeuer after the enqueuer has stopped.
use goresilience.Prelude.{◌≡◌, false, arith}
use goresilience.ConcurrencyLimit.Queue.Dynamic.{
  enqueuer_stopped, sleeping, Queue, Step, set_dequeue_policy, ask_since_last_empty, close_stop,
  receive, count_in, enqueue, signal, stop_enqueuer, stop_dequeuer, go_on, find_empty, find_job,
  wake, still_empty, woken_by_job, pop, count_out, deliver, Steps, here, more,
}

-- Nobody is left who would wake the dequeuer.
abbrev IsForgotten : {J : Type 0} → Queue J → Type 0
IsForgotten q = (q.enqueuer ≡ enqueuer_stopped) × (q.dequeuer ≡ sleeping) × (q.wake_up ≡ false)

Step-IsForgotten : {J : Type 0} {q r : Queue J} → Step q r → IsForgotten q → IsForgotten r
Step-IsForgotten (set_dequeue_policy p) v = v
Step-IsForgotten (ask_since_last_empty now) v = v
Step-IsForgotten close_stop v = v
Step-IsForgotten (receive job e) v = ground arith
Step-IsForgotten (count_in now job e) v = ground arith
Step-IsForgotten (enqueue job e) v = ground arith
Step-IsForgotten (signal e) v = ground arith
Step-IsForgotten (stop_enqueuer e f) v = ground arith
Step-IsForgotten (stop_dequeuer e f) v = ground arith
Step-IsForgotten (go_on e f) v = ground arith
Step-IsForgotten (find_empty e f x) v = ground arith
Step-IsForgotten (find_job e f x) v = ground arith
Step-IsForgotten (wake e f) v = ground arith
Step-IsForgotten (still_empty e f x) v = ground arith
Step-IsForgotten (woken_by_job e f x) v = ground arith
Step-IsForgotten (pop job rest e f x) v = ground arith
Step-IsForgotten (count_out now job e) v = ground arith
Step-IsForgotten (deliver job e) v = ground arith

Steps-IsForgotten : {J : Type 0} {q r : Queue J} → Steps q r → IsForgotten q → IsForgotten r
Steps-IsForgotten here v = v
Steps-IsForgotten (more before st) v = Step-IsForgotten st (Steps-IsForgotten before v)

-- A dequeuer that sleeps with no signal in the buffer when the enqueuer has stopped sleeps for ever,
-- whatever happens: the stop channel does not wake it.
pub Steps-sleeping :
    {J : Type 0} {q r : Queue J}
    → Steps q r
    → q.enqueuer ≡ enqueuer_stopped
    → q.dequeuer ≡ sleeping
    → q.wake_up ≡ false
    → (r.dequeuer ≡ sleeping) × (r.enqueuer ≡ enqueuer_stopped)
Steps-sleeping steps e f g = let v = Steps-IsForgotten steps (e, f, g) in (v.1, v.0)
