-- ===== src/Bulkhead.antt =====
-- bulkhead/bulkhead.go: callers and workers that meet at the channel `jobC`, as steps in any order.
-- The channel has no buffer: a job goes from the `select` of a caller straight to a worker. Calls are
-- numbered, and so are the workers, from 0 on. What the next runner returns is left open.
use goresilience.Prelude.{
  ℕ, ◌+◌, ◌<◌, ◌≡◌, ◌≢◌, Bool, true, false, Option, none, some, List, [], ◌∷◌, ◌++◌, if◌then◌else◌,
}
use goresilience.Prelude.Int.{ℤ, pos, pos_part, ltb_ℤ, leb_ℤ}
use goresilience.Prelude.Families.{write}
use goresilience.Errors.{Error, err_timeout_waiting_for_execution}
pub mod Invariant
pub mod Counts
pub mod Runs
pub mod Stopped

-- Without `StopC`, which only a user closes.
pub record Config : Type 0 where
  pub workers : ℤ
  pub max_wait_time : ℤ

unfoldable pub defaults : Config → Config
defaults c = record {
  workers = if leb_ℤ c.workers (pos 0) then pos 15 else c.workers;
  max_wait_time = if ltb_ℤ c.max_wait_time (pos 0) then pos 0 else c.max_wait_time;
}

-- Where the goroutine of a call of `Run` stands.
pub data Caller : Type 0 where
  outside : Caller  -- `Run` is not called yet
  queued : Caller  -- at the `select`
  handed : Caller  -- at `<-resC`
  returned : Option Error → Caller

pub record Call : Type 0 where
  pub caller : Caller
  pub res_c : Option (Option Error)  -- the buffer of `resC`
  pub outcomes : List (Option Error)  -- what its runs of the next runner have returned

-- Where a worker stands; the number is that of the call whose job it has.
pub data Worker : Type 0 where
  idle : Worker  -- at its `select`
  holding : ℕ → Worker  -- before `IncBulkheadProcessed`
  running : ℕ → Worker  -- in the next runner
  gone : Worker

-- The last three fields count the calls of the recorders' methods.
pub record System : Type 0 where
  pub calls : ℕ → Call
  pub workers : ℕ → Worker
  pub stopped : Bool
  pub queued_total : ℕ
  pub processed_total : ℕ
  pub timeouts_total : ℕ

abbrev pub not_called : Call
not_called = record { caller = outside; res_c = none; outcomes = [] }

-- After `startWorkerPool`.
abbrev pub pool_started : System
pool_started = record {
  calls = λ c. not_called;
  workers = λ i. idle;
  stopped = false;
  queued_total = 0;
  processed_total = 0;
  timeouts_total = 0;
}

abbrev pub stand : Call → Caller → Call
stand call at = record call { caller = at }

-- `calls` bounds the numbers of the calls. A worker at its `select` with `StopC` closed may take
-- either case.
module _ (cfg : Config) (calls : ℕ) where
  pub data Step (s : System) : System → Type 0 where
    enter :
        (c : ℕ)
        → c < calls
        → (s.calls c).caller ≡ outside
        → Step s (record s {
          calls = write s.calls c (stand (s.calls c) queued);
          queued_total = s.queued_total + 1;
        })
    hand :
        (c i : ℕ)
        → c < calls
        → i < pos_part cfg.workers
        → (s.calls c).caller ≡ queued
        → s.workers i ≡ idle
        → Step s (record s {
          calls = write s.calls c (stand (s.calls c) handed);
          workers = write s.workers i (holding c);
        })
    give_up :
        (c : ℕ)
        → c < calls
        → cfg.max_wait_time ≢ pos 0
        → (s.calls c).caller ≡ queued
        → Step s (record s {
          calls =
              write s.calls c
                (stand (s.calls c) (returned (some err_timeout_waiting_for_execution)));
          timeouts_total = s.timeouts_total + 1;
        })
    process :
        (c i : ℕ)
        → i < pos_part cfg.workers
        → s.workers i ≡ holding c
        → Step s (record s {
          workers = write s.workers i (running c);
          processed_total = s.processed_total + 1;
        })
    finish :
        (c i : ℕ) (err : Option Error)
        → i < pos_part cfg.workers
        → s.workers i ≡ running c
        → (s.calls c).res_c ≡ none
        → Step s (record s {
          calls =
              write s.calls c
                (record (s.calls c) { res_c = some err; outcomes = err ∷ (s.calls c).outcomes });
          workers = write s.workers i idle;
        })
    collect :
        (c : ℕ) (err : Option Error)
        → (s.calls c).caller ≡ handed
        → (s.calls c).res_c ≡ some err
        → Step s (record s {
          calls = write s.calls c (record (s.calls c) { caller = returned err; res_c = none });
        })
    close : s.stopped ≡ false → Step s (record s { stopped = true })
    leave :
        (i : ℕ)
        → i < pos_part cfg.workers
        → s.stopped ≡ true
        → s.workers i ≡ idle
        → Step s (record s { workers = write s.workers i gone })

  -- The states after a number of steps.
  pub data Reach : ℕ → System → Type 0 where
    start : Reach 0 pool_started
    later : {n : ℕ} {s t : System} → Reach n s → Step s t → Reach (n + 1) t
