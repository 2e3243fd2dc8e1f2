-- ===== src/ConcurrencyLimit/Handshake.antt =====
-- `Execute` of lifo.go and of codel.go in concurrencylimit/execute: one call, its caller and its job,
-- as steps in any order. The queue and the worker pool run the job once at most, at any time.
use goresilience.Prelude.{
  ℕ, ◌+◌, ◌≡◌, Bool, true, false, Option, none, some, List, [], ◌∷◌, if◌then◌else◌, ◌==◌,
}
use goresilience.Prelude.Int.{ℤ, pos, eqb_ℤ}
use goresilience.Errors.{Error, err_rejected_execution}
pub mod Outcome
pub mod Cancelled

pub record LifoConfig : Type 0 where
  pub max_wait_time : ℤ

unfoldable pub defaults : LifoConfig → LifoConfig
defaults c = record {
  max_wait_time = if eqb_ℤ c.max_wait_time (pos 0) then pos 1_000_000_000 else c.max_wait_time;
}

-- Which executor it is: the one closes `canceledJob`, the other sends on it.
pub data Kind : Type 0 where
  lifo : Kind
  codel : Kind

-- Whether a cancellation can still be received after it was received once.
abbrev pub stays : Kind → Bool
stays lifo = true
stays codel = false

pub data Caller : Type 0 where
  waiting : Caller  -- at the `select`
  cancelling : Caller  -- the timer has fired
  collecting : Caller  -- at `<-res`
  returned : Option Error → Caller

pub data Job : Type 0 where
  queued : Job  -- on its way to a worker
  started : Job  -- `dequeuedJob` is closed
  running : Job  -- in `f`
  skipped : Job
  done : Job

pub record Call : Type 0 where
  pub caller : Caller
  pub job : Job
  pub dequeued : Bool  -- whether `dequeuedJob` is closed
  pub canceled : Bool  -- whether there is something to receive from `canceledJob`
  pub res : Option (Option Error)
  pub outcomes : List (Option Error)  -- what the runs of `f` have returned

abbrev pub submitted : Call
submitted = record {
  caller = waiting;
  job = queued;
  dequeued = false;
  canceled = false;
  res = none;
  outcomes = [];
}

module _ (kind : Kind) where
  pub data Step (q : Call) : Call → Type 0 where
    dequeue : q.job ≡ queued → Step q (record q { job = started; dequeued = true })
    skip :
        q.job ≡ started
        → q.canceled ≡ true
        → Step q (record q { job = skipped; canceled = stays kind })
    go : q.job ≡ started → q.canceled ≡ false → Step q (record q { job = running })
    finish :
        (err : Option Error)
        → q.job ≡ running
        → q.res ≡ none
        → Step q (record q { job = done; res = some err; outcomes = err ∷ q.outcomes })
    notice : q.caller ≡ waiting → q.dequeued ≡ true → Step q (record q { caller = collecting })
    expire : q.caller ≡ waiting → Step q (record q { caller = cancelling })
    cancel :
        q.caller ≡ cancelling
        → Step q (record q { caller = returned (some err_rejected_execution); canceled = true })
    collect :
        (err : Option Error)
        → q.caller ≡ collecting
        → q.res ≡ some err
        → Step q (record q { caller = returned err; res = none })

  -- The states after a number of steps.
  pub data Reach : ℕ → Call → Type 0 where
    start : Reach 0 submitted
    later : {n : ℕ} {q r : Call} → Reach n q → Step q r → Reach (n + 1) r

  -- Any further steps.
  pub data Steps (q : Call) : Call → Type 0 where
    here : Steps q q
    more : {r s : Call} → Steps q r → Step r s → Steps q s
