-- ===== src/ConcurrencyLimit/Fifo/Pooled/Capacity.antt =====
-- How many jobs the FIFO executor runs at once: its workers are those of the worker pool.
use mathlib.Core.Path.{subst}
use goresilience.Prelude.{◌≢◌, ℕ, ◌+◌, ◌≤◌, ap, length}
use goresilience.Prelude.Families.{write, map-write, tally}
use goresilience.ConcurrencyLimit.Workers.Goroutines
use goresilience.ConcurrencyLimit.Workers.Goroutines.Capacity.{runs, Reach-runs_le}
use goresilience.ConcurrencyLimit.Fifo.Pooled.{
  Worker, idle, running, gone, System, new_fifo, Step, call, hand, reject, finish, collect,
  set_quantity, leave, Reach, start, later,
}

-- A worker as the worker pool sees it.
abbrev pub seen : Worker → Goroutines.Worker
seen idle = Goroutines.idle
seen (running d) = Goroutines.running
seen gone = Goroutines.gone

abbrev pub all_seen : (ℕ → Worker) → ℕ → Goroutines.Worker
all_seen ws i = seen (ws i)

abbrev PoolReach : System → Type 0
PoolReach s = Goroutines.Reach (record { pool = s.pool; workers = all_seen s.workers })

with_write :
    (s : System) (i : ℕ) (w : Worker)
    → Goroutines.Reach (record { pool = s.pool; workers = write (all_seen s.workers) i (seen w) })
    → PoolReach (record s { workers = write s.workers i w })
with_write s i w reach =
    subst (λ h. Goroutines.Reach (record { pool = s.pool; workers = h }))
      (map-write seen s.workers i w) reach

Step-PoolReach : {s t : System} → PoolReach s → Step s t → PoolReach t
Step-PoolReach {s} reach (hand c i n e l w) =
    with_write s i (running c) (Goroutines.later reach (Goroutines.take i l (ap seen w)))
Step-PoolReach {s} reach (finish c i err w r) =
    with_write s i idle (Goroutines.later reach (Goroutines.finish i (ap seen w)))
Step-PoolReach {s} reach (leave i k e w) =
    with_write s i gone (Goroutines.later reach (Goroutines.leave i k e (ap seen w)))
Step-PoolReach reach (set_quantity q) = Goroutines.later reach (Goroutines.set_quantity q)
Step-PoolReach reach (call c e) = reach
Step-PoolReach reach (reject c n e) = reach
Step-PoolReach reach (collect c err e r) = reach

Reach-PoolReach : {s : System} → Reach s → PoolReach s
unfolding new_fifo
Reach-PoolReach start = Goroutines.start
Reach-PoolReach (later prior st) = Step-PoolReach (Reach-PoolReach prior) st

-- However often the worker quantity is set, a worker whose stop channel is open has not ended, and the jobs
-- that run at once, on workers with any number, are at most as many as there are open stop channels, and
-- those that workers whose channel is closed, the first ones, still run.
pub Reach-runs_le_open :
    {s : System} (m i : ℕ)
    → Reach s
    → length s.pool.closed ≤ i
    → (s.workers i ≢ gone)
      × (tally runs m (all_seen s.workers)
          ≤ tally runs (length s.pool.closed) (all_seen s.workers) + length s.pool.worker_stoppers)
Reach-runs_le_open m i reach h =
    let (stays, few) = Reach-runs_le m i (Reach-PoolReach reach) h in (λ g. stays (ap seen g), few)
