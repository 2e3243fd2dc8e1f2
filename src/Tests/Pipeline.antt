-- ===== src/Tests/Pipeline.antt =====
-- Two calls of a LIFO executor with one worker: the job of the first one runs, the second one is rejected.
use goresilience.Prelude.{
  ℕ, List, Option, ◌+◌, ◌≤◌, ◌<◌, ◌≡◌, ◌≢◌, refl, ◌⊎◌, some, [], ◌∷◌, length, arith,
}
use goresilience.Prelude.Int.{pos}
use goresilience.Prelude.Families.{tally}
use goresilience.Errors.{Error, external, err_rejected_execution}
use goresilience.ConcurrencyLimit.Handshake
use goresilience.ConcurrencyLimit.Handshake.{Kind, returned}
use goresilience.ConcurrencyLimit.Queue.Dynamic
use goresilience.ConcurrencyLimit.Queue.{lifo_dequeue_policy, inc, decr, enqueue_at_end_policy}
use goresilience.ConcurrencyLimit.Workers.{
  new_worker_pool, set_worker_quantity, increase_workers, decrease_workers,
}
use goresilience.ConcurrencyLimit.Workers.Goroutines.Capacity.{runs}
use goresilience.ConcurrencyLimit.Queued.{
  gone, System, new_executor, call, send, within_queue, forward, hand, begin, go, finish, notice,
  expire, cancel, collect, set_quantity, Step, Reach, start, later,
}
use goresilience.ConcurrencyLimit.Queued.Simulates.{Shows, OneStep, Step-simulates, Reach-Shows}
use goresilience.ConcurrencyLimit.Queued.Alone.{Reach-returns}
use goresilience.ConcurrencyLimit.Queued.Progress.{Moved, Reach-moves_on}
use goresilience.ConcurrencyLimit.Queued.Capacity.{all_seen, Reach-busy_le}

receives : ◌≢◌ {A = Dynamic.Enqueuer ℕ} Dynamic.receiving Dynamic.signalling
receives e = cc

not_empty : ◌≢◌ {A = List ℕ} (0 ∷ []) []
not_empty e = cc

one_worker : 0 < 1
one_worker = omega arith

-- A worker, two calls, and the job of the first one in the queue.
abbrev made : (s : System) × Reach Kind.lifo s
unfolding new_executor set_worker_quantity increase_workers decrease_workers new_worker_pool
made = (
  _,
  later (later (later (later start (set_quantity (pos 1))) (call 0 refl)) (call 1 refl))
      (send 0 refl refl refl),
)

-- The queue sorts the job in and lets it out.
abbrev sent_out : (s : System) × Reach Kind.lifo s
unfolding new_executor set_worker_quantity increase_workers decrease_workers new_worker_pool inc
    decr enqueue_at_end_policy Dynamic.dequeue lifo_dequeue_policy
sent_out =
    let s = later made.1 (within_queue (Dynamic.count_in 5 0 refl) refl refl) in
    let s = later s (within_queue (Dynamic.enqueue 0 refl) refl refl) in
    let s = later s (within_queue (Dynamic.signal refl) refl refl) in
    let s = later s (within_queue (Dynamic.go_on refl refl) refl refl) in
    let s = later s (within_queue (Dynamic.find_job refl receives not_empty) refl refl) in
    let s = later s (within_queue (Dynamic.pop (some 0) [] refl receives refl) refl refl) in
    (_, later s (within_queue (Dynamic.count_out 7 (some 0) refl) refl refl))

-- The worker runs the job, while the timer of the second call fires.
abbrev ended : (s : System) × Reach Kind.lifo s
unfolding new_executor set_worker_quantity increase_workers decrease_workers new_worker_pool inc
    decr enqueue_at_end_policy sent_out
ended =
    let s = later (later sent_out.1 (forward (some 0) refl refl)) (hand 0 0 refl one_worker refl) in
    let s = later (later s (begin 0 0 refl)) (go 0 0 refl refl) in
    let s = later (later s (expire 1 refl refl)) (notice 0 refl refl refl) in
    let s = later (later s (finish 0 0 (some (external 3)) refl refl)) (cancel 1 refl) in
    (_, later s (collect 0 (some (external 3)) refl refl))

-- A worker has the job of the first call, and begins with it.
abbrev given : (s : System) × Reach Kind.lifo s
unfolding new_executor set_worker_quantity increase_workers decrease_workers new_worker_pool inc
    decr enqueue_at_end_policy sent_out
given = (_, later (later sent_out.1 (forward (some 0) refl refl)) (hand 0 0 refl one_worker refl))

abbrev begun : (t : System) × Step Kind.lifo given.0 t
unfolding given
begun = (_, begin 0 0 refl)

Step-simulates_example :
    let qs = (Reach-Shows Kind.lifo given.1).0 in
    (rs : ℕ → Handshake.Call) × Shows rs begun.0 × OneStep Kind.lifo qs rs
Step-simulates_example =
    Step-simulates Kind.lifo (Reach-Shows Kind.lifo given.1).0 given.1 begun.1
      (Reach-Shows Kind.lifo given.1).1

Reach-returns_example :
    (((ended.0.calls 0).outcomes ≡ some (external 3) ∷ [])
      ⊎ (some (external 3) ≡ some err_rejected_execution))
    × (length (ended.0.calls 0).outcomes ≤ 1)
unfolding ended
Reach-returns_example = Reach-returns Kind.lifo 0 (some (external 3)) ended.1 refl

Reach-busy_le_example :
    (given.0.workers 0 ≢ gone)
    × (tally runs 5 (all_seen given.0.workers)
        ≤ tally runs (length given.0.pool.closed) (all_seen given.0.workers)
          + length given.0.pool.worker_stoppers)
unfolding given
Reach-busy_le_example = Reach-busy_le Kind.lifo 5 0 given.1 (omega arith)

waits_on : (err : Option Error) → (sent_out.0.calls 1).caller ≢ returned err
unfolding sent_out
waits_on err e = cc

Reach-moves_on_example : (t : System) × Step Kind.lifo sent_out.0 t × Moved sent_out.0 t 1
unfolding sent_out
Reach-moves_on_example = Reach-moves_on Kind.lifo sent_out.0 1 sent_out.1 refl waits_on
