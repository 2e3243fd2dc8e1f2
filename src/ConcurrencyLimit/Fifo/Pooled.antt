-- ===== src/ConcurrencyLimit/Fifo/Pooled.antt =====
-- concurrencylimit/execute/fifo.go: the executor as a whole. Any number of calls of `Execute` and the
-- workers of the pool, as steps in any order. Calls are numbered, and a job is the number of its call;
-- the channel of the pool has no buffer, so that a job goes straight from its caller to a worker.
use goresilience.Prelude.{
  ℕ, ◌<◌, ◌≡◌, Bool, true, false, Option, none, some, List, [], ◌∷◌, get_elem?,
}
use goresilience.Prelude.Int.{ℤ}
use goresilience.Prelude.Families.{write}
use goresilience.Errors.{Error, err_rejected_execution}
use goresilience.ConcurrencyLimit.Fifo.{Caller, waiting, handed, returned}
use goresilience.ConcurrencyLimit.Workers.{WorkerPool, new_worker_pool, set_worker_quantity}
pub mod Alone
pub mod Capacity

-- The variables of one call of `Execute`.
pub record Call : Type 0 where
  pub entered : Bool  -- whether `Execute` is called
  pub caller : Caller
  pub result : Option (Option Error)  -- the buffer of the channel
  pub outcomes : List (Option Error)  -- what the runs of `fn` have returned

-- Where a worker stands; the number is that of the job.
pub data Worker : Type 0 where
  idle : Worker  -- at its `select`, or not started
  running : ℕ → Worker  -- in the job
  gone : Worker

pub record System : Type 0 where
  pub calls : ℕ → Call
  pub workers : ℕ → Worker
  pub pool : WorkerPool

abbrev pub not_called : Call
not_called = record { entered = false; caller = waiting; result = none; outcomes = [] }

-- `NewFIFO`
unfoldable pub new_fifo : System
new_fifo = record { calls = λ c. not_called; workers = λ i. idle; pool = new_worker_pool }

pub data Step (s : System) : System → Type 0 where
  call :
      (c : ℕ)
      → (s.calls c).entered ≡ false
      → Step s (record s { calls = write s.calls c (record (s.calls c) { entered = true }) })
  hand :
      (c i : ℕ)
      → (s.calls c).entered ≡ true
      → (s.calls c).caller ≡ waiting
      → i < s.pool.fresh
      → s.workers i ≡ idle
      → Step s (record s {
        calls = write s.calls c (record (s.calls c) { caller = handed });
        workers = write s.workers i (running c);
      })
  reject :
      (c : ℕ)
      → (s.calls c).entered ≡ true
      → (s.calls c).caller ≡ waiting
      → Step s (record s {
        calls =
            write s.calls c
              (record (s.calls c) { caller = returned (some err_rejected_execution) });
      })
  finish :
      (c i : ℕ) (err : Option Error)
      → s.workers i ≡ running c
      → (s.calls c).result ≡ none
      → Step s (record s {
        calls =
            write s.calls c
              (record (s.calls c) { result = some err; outcomes = err ∷ (s.calls c).outcomes });
        workers = write s.workers i idle;
      })
  collect :
      (c : ℕ) (err : Option Error)
      → (s.calls c).caller ≡ handed
      → (s.calls c).result ≡ some err
      → Step s (record s {
        calls = write s.calls c (record (s.calls c) { caller = returned err; result = none });
      })
  set_quantity : (q : ℤ) → Step s (record s { pool = set_worker_quantity q s.pool })
  -- A worker whose channel is closed may take one more job, since its `select` is free to choose.
  leave :
      (i k : ℕ)
      → get_elem? s.pool.closed k ≡ some i
      → s.workers i ≡ idle
      → Step s (record s { workers = write s.workers i gone })

pub data Reach : System → Type 0 where
  start : Reach new_fifo
  later : {s t : System} → Reach s → Step s t → Reach t
