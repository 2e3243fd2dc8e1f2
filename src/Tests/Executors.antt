-- ===== src/Tests/Executors.antt =====
-- Calls of the executors, and the worker pool, on short runs.
use goresilience.Prelude.{◌≡◌, refl, true, false, none, some, [], ◌∷◌, arith}
use goresilience.Prelude.Int.{pos}
use goresilience.Prelude.Families.{write}
use goresilience.Errors.{external, err_rejected_execution}
use goresilience.ConcurrencyLimit.Fifo
use goresilience.ConcurrencyLimit.Handshake.{
  Step, Kind, lifo, collecting, returned, Call, Job, skipped, submitted, dequeue, go, finish,
  notice, Reach, start, later,
}
use goresilience.ConcurrencyLimit.Handshake.Cancelled.{rejected_runs}
use goresilience.ConcurrencyLimit.Queue.Dynamic.{Policy}
use goresilience.ConcurrencyLimit.Codel.{AdaptiveLifoCodelConfig, adapt}
use goresilience.ConcurrencyLimit.Codel.Busy.{
  History, came, left, asked, replay, jobs, busy_since, adapt-replay,
}
use goresilience.ConcurrencyLimit.Workers.{
  new_worker_pool, increase_workers, decrease_workers, set_worker_quantity,
}
use goresilience.ConcurrencyLimit.Workers.Goroutines

-- The function fails, and its call gets the error.
abbrev failed : Call
failed = record submitted {
  caller = collecting;
  job = Job.done;
  dequeued = true;
  res = some (some (external 3));
  outcomes = some (external 3) ∷ [];
}

failed-Reach : (k : Kind) → Reach k 4 failed
failed-Reach k =
    later (later (later (later start (dequeue refl)) (notice refl refl)) (go refl refl))
      (finish (some (external 3)) refl refl)

abbrev answered : Call
answered = record failed { caller = returned (some (external 3)); res = none }

-- A call whose timer has fired, and then its job is dequeued.
abbrev cut : Call
cut = record submitted { caller = returned (some err_rejected_execution); canceled = true }

abbrev skipped_late : Call
skipped_late = record cut { job = skipped; dequeued = true; canceled = false }

rejected_runs_example :
    (p : Call) × (q : Call) × Reach lifo 4 p
    × Step lifo p q
    × (p.caller ≡ returned (some err_rejected_execution))
    × (p.job ≡ Job.running)
    × (p.outcomes ≡ [])
    × (q.caller ≡ returned (some err_rejected_execution))
    × (q.outcomes ≡ none ∷ [])
rejected_runs_example = rejected_runs lifo none

abbrev refused : Fifo.Call
refused = record Fifo.submitted { caller = Fifo.returned (some err_rejected_execution) }

abbrev config : AdaptiveLifoCodelConfig
config = record { codel_target_delay = pos 5; codel_interval = pos 100 }

abbrev busy : History
busy = asked 90 ∷ left 60 ∷ came 50 ∷ came 20 ∷ []

-- The queue has been in use since 20.
adapt-replay_example :
    let r = adapt config 130 (replay busy) in
    (r.0 ≡ Policy.lifo) × (r.1 ≡ pos 5) × (r.2.size ≡ pos 1)
unfolding jobs busy_since
adapt-replay_example = adapt-replay config 100 130 busy refl

abbrev two_run : Goroutines.System
two_run = record {
  pool = record { worker_stoppers = 1 ∷ []; closed = 0 ∷ []; fresh = 2 };
  workers = write (write (λ i. Goroutines.idle) 0 Goroutines.running) 1 Goroutines.running;
}

two_run-Reach : Goroutines.Reach two_run
unfolding set_worker_quantity increase_workers decrease_workers new_worker_pool
two_run-Reach =
    Goroutines.later
      (Goroutines.later
        (Goroutines.later (Goroutines.later Goroutines.start (Goroutines.set_quantity (pos 2)))
          (Goroutines.take 0 (omega arith) refl))
        (Goroutines.take 1 (omega arith) refl))
      (Goroutines.set_quantity (pos 1))

-- After the quantity was lowered to 1 two jobs still run.
