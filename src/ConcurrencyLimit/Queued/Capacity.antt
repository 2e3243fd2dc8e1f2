-- ===== src/ConcurrencyLimit/Queued/Capacity.antt =====
-- How many jobs an executor that has a queue runs at once: its workers are those of the worker pool.
use mathlib.Core.Path.{subst, fun_ext}
use goresilience.Prelude.{ℕ, ◌+◌, ◌≤◌, ◌≡◌, ◌≢◌, ap, length, arith}
use goresilience.Prelude.Families.{write, map-write, tally}
use goresilience.ConcurrencyLimit.Handshake.{Kind}
use goresilience.ConcurrencyLimit.Workers.Goroutines
use goresilience.ConcurrencyLimit.Workers.Goroutines.Capacity.{runs, Reach-runs_le}
use goresilience.ConcurrencyLimit.Queued.{
  Worker, idle, holding, started, running, gone, System, new_executor, Step, call, send,
  within_queue, forward, hand, stop_forwarder, begin, skip, go, finish, notice, expire, cancel,
  collect, set_quantity, leave, Reach, start, later,
}

-- A worker as the worker pool sees it: a worker that has a job is in it.
abbrev pub seen : Worker → Goroutines.Worker
seen idle = Goroutines.idle
seen (holding d) = Goroutines.running
seen (started d) = Goroutines.running
seen (running d) = Goroutines.running
seen gone = Goroutines.gone

abbrev pub all_seen : (ℕ → Worker) → ℕ → Goroutines.Worker
all_seen ws i = seen (ws i)

abbrev pub pool_of : System → Goroutines.System
pool_of s = record { pool = s.pool; workers = all_seen s.workers }

-- A worker moves on with its job.
seen-same :
    (ws : ℕ → Worker) (i : ℕ) (w : Worker)
    → seen (ws i) ≡ seen w
    → all_seen ws ≡ all_seen (write ws i w)
seen-same ws i w e = fun_ext (λ j. ground (arith, e))

abbrev PoolReach : System → Type 0
PoolReach s = Goroutines.Reach (pool_of s)

with_workers :
    (s : System) (f g : ℕ → Goroutines.Worker)
    → f ≡ g
    → Goroutines.Reach (record { pool = s.pool; workers = f })
    → Goroutines.Reach (record { pool = s.pool; workers = g })
with_workers s f g e reach =
    subst (λ h. Goroutines.Reach (record { pool = s.pool; workers = h })) e reach

module _ (kind : Kind) where
  Step-PoolReach : {s t : System} → PoolReach s → Step kind s t → PoolReach t
  Step-PoolReach {s} reach (hand c i f n w) =
      with_workers s _ _ (map-write seen s.workers i (holding c))
        (Goroutines.later reach (Goroutines.take i n (ap seen w)))
  Step-PoolReach {s} reach (begin c i w) =
      with_workers s _ _ (seen-same s.workers i (started c) (ap seen w)) reach
  Step-PoolReach {s} reach (go c i w e) =
      with_workers s _ _ (seen-same s.workers i (running c) (ap seen w)) reach
  Step-PoolReach {s} reach (skip c i w e) =
      with_workers s _ _ (map-write seen s.workers i idle)
        (Goroutines.later reach (Goroutines.finish i (ap seen w)))
  Step-PoolReach {s} reach (finish c i err w e) =
      with_workers s _ _ (map-write seen s.workers i idle)
        (Goroutines.later reach (Goroutines.finish i (ap seen w)))
  Step-PoolReach {s} reach (leave i k e w) =
      with_workers s _ _ (map-write seen s.workers i gone)
        (Goroutines.later reach (Goroutines.leave i k e (ap seen w)))
  Step-PoolReach reach (set_quantity q) = Goroutines.later reach (Goroutines.set_quantity q)
  Step-PoolReach reach (call c e) = reach
  Step-PoolReach reach (send c e n r) = reach
  Step-PoolReach reach (within_queue st a d) = reach
  Step-PoolReach reach (forward job f q) = reach
  Step-PoolReach reach (stop_forwarder f q) = reach
  Step-PoolReach reach (notice c n e d) = reach
  Step-PoolReach reach (expire c n e) = reach
  Step-PoolReach reach (cancel c e) = reach
  Step-PoolReach reach (collect c err e r) = reach

  Reach-PoolReach : {s : System} → Reach kind s → PoolReach s
  unfolding new_executor
  Reach-PoolReach start = Goroutines.start
  Reach-PoolReach (later before st) = Step-PoolReach (Reach-PoolReach before) st

  -- Whatever the calls and the queue do, and however often the worker quantity is set: a worker whose stop
  -- channel is open has not ended, and the jobs that workers, with any number, have at once are at most as
  -- many as there are open stop channels, and those that workers whose channel is closed, the first
  -- ones, still have.
  pub Reach-busy_le :
      {s : System} (m i : ℕ)
      → Reach kind s
      → length s.pool.closed ≤ i
      → (s.workers i ≢ gone)
        × (tally runs m (all_seen s.workers)
            ≤ tally runs (length s.pool.closed) (all_seen s.workers)
              + length s.pool.worker_stoppers)
  Reach-busy_le m i reach h =
      let (stays, few) = Reach-runs_le m i (Reach-PoolReach reach) h in
      (λ g. stays (ap seen g), few)
