-- ===== src/ConcurrencyLimit/Workers/Goroutines.antt =====
-- concurrencylimit/execute/executor.go: the goroutines of the worker pool, `newWorker`, as steps in
-- any order, with jobs that arrive at any time. A worker has the number of its stop channel.
use goresilience.Prelude.{ℕ, ◌+◌, ◌<◌, ◌≡◌, Option, some, List, ◌∷◌, get_elem?, if◌then◌else◌, ◌==◌}
use goresilience.Prelude.Int.{ℤ}
use goresilience.Prelude.Families.{write}
use goresilience.ConcurrencyLimit.Workers.{WorkerPool, new_worker_pool, set_worker_quantity}
pub mod Capacity

pub data Worker : Type 0 where
  idle : Worker  -- at its `select`, or not started
  running : Worker  -- in a job
  gone : Worker

pub record System : Type 0 where
  pub pool : WorkerPool
  pub workers : ℕ → Worker

abbrev pub pool_made : System
pool_made = record { pool = new_worker_pool; workers = λ i. idle }

-- A worker whose channel is closed may take one more job, since its `select` is free to choose.
pub data Step (s : System) : System → Type 0 where
  set_quantity : (q : ℤ) → Step s (record s { pool = set_worker_quantity q s.pool })
  take :
      (i : ℕ)
      → i < s.pool.fresh
      → s.workers i ≡ idle
      → Step s (record s { workers = write s.workers i running })
  finish : (i : ℕ) → s.workers i ≡ running → Step s (record s { workers = write s.workers i idle })
  leave :
      (i k : ℕ)
      → get_elem? s.pool.closed k ≡ some i
      → s.workers i ≡ idle
      → Step s (record s { workers = write s.workers i gone })

pub data Reach : System → Type 0 where
  start : Reach pool_made
  later : {s t : System} → Reach s → Step s t → Reach t
