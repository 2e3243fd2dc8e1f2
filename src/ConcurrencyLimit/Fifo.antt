-- ===== src/ConcurrencyLimit/Fifo.antt =====
-- concurrencylimit/execute/fifo.go: one call, its caller and its job, as steps in any order. The
-- channel of the pool has no buffer: a job goes from the `select` of the caller straight to a worker.
use goresilience.Prelude.{
  ℕ, ◌+◌, ◌≤◌, ◌≡◌, ◌≢◌, refl, ◌⊎◌, inl, inr, Option, none, some, List, [], ◌∷◌, arith,
  if◌then◌else◌,
}
use goresilience.Prelude.Int.{ℤ, pos, eqb_ℤ}
use goresilience.Errors.{Error, err_rejected_execution}
pub mod Outcome
pub mod Pooled

pub record FifoConfig : Type 0 where
  pub max_wait_time : ℤ

unfoldable pub defaults : FifoConfig → FifoConfig
defaults c = record {
  max_wait_time = if eqb_ℤ c.max_wait_time (pos 0) then pos 1_000_000_000 else c.max_wait_time;
}

pub data Caller : Type 0 where
  waiting : Caller  -- at the `select`
  handed : Caller  -- at `<-result`
  returned : Option Error → Caller

pub data Job : Type 0 where
  offered : Job  -- in the `select` of the caller
  running : Job  -- in `fn`
  done : Job

pub record Call : Type 0 where
  pub caller : Caller
  pub job : Job
  pub result : Option (Option Error)  -- the buffer of the channel
  pub outcomes : List (Option Error)  -- what the runs of `fn` have returned

abbrev pub submitted : Call
submitted = record { caller = waiting; job = offered; result = none; outcomes = [] }

pub data Step (q : Call) : Call → Type 0 where
  hand : q.caller ≡ waiting → q.job ≡ offered → Step q (record q { caller = handed; job = running })
  reject :
      q.caller ≡ waiting → Step q (record q { caller = returned (some err_rejected_execution) })
  finish :
      (err : Option Error)
      → q.job ≡ running
      → q.result ≡ none
      → Step q (record q { job = done; result = some err; outcomes = err ∷ q.outcomes })
  collect :
      (err : Option Error)
      → q.caller ≡ handed
      → q.result ≡ some err
      → Step q (record q { caller = returned err; result = none })

-- The states after a number of steps.
pub data Reach : ℕ → Call → Type 0 where
  start : Reach 0 submitted
  later : {n : ℕ} {q r : Call} → Reach n q → Step q r → Reach (n + 1) r
