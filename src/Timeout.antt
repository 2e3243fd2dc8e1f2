-- ===== src/Timeout.antt =====
-- timeout/timeout.go: one call, its caller and the goroutine that runs the next runner, as steps in
-- any order. The context is of the Go library: `done` is whether its channel is closed, which the
-- deadline, the parent context and `cancel` do.
use goresilience.Prelude.{ℕ, ◌+◌, ◌≡◌, Bool, true, false, ◌||◌, Option, none, some, if◌then◌else◌}
use goresilience.Prelude.Int.{ℤ, pos, leb_ℤ}
use goresilience.Errors.{Error, err_timeout}
pub mod Outcome

pub record Config : Type 0 where
  pub timeout : ℤ
  pub cancel : Bool

unfoldable pub defaults : Config → Config
defaults c = record c { timeout = if leb_ℤ c.timeout (pos 0) then pos 1_000_000_000 else c.timeout }

-- The caller stands at the `select`, or has returned.
pub data Caller : Type 0 where
  waiting : Caller
  returned : Option Error → Caller

pub record Call : Type 0 where
  pub errc : Option (Option Error)  -- the buffer of the channel `errc`
  pub finished : Option (Option Error)  -- what `next.Run` has returned
  pub done : Bool
  pub caller : Caller
  pub timeouts : ℕ  -- how often `IncTimeout` was called

-- After `context.WithTimeout` and the start of the goroutine.
abbrev pub begun : Call
begun = record { errc = none; finished = none; done = false; caller = waiting; timeouts = 0 }

module _ (cfg : Config) where
  -- When the caller returns, a deferred `cancel` closes the context.
  pub data Step (q : Call) : Call → Type 0 where
    finish :
        (err : Option Error)
        → q.finished ≡ none
        → Step q (record q { errc = some err; finished = some err })
    close : Step q (record q { done = true })
    take :
        (err : Option Error)
        → q.caller ≡ waiting
        → q.errc ≡ some err
        → Step q (record q { errc = none; caller = returned err; done = q.done || cfg.cancel })
    give_up :
        q.caller ≡ waiting
        → q.done ≡ true
        → Step q (record q {
          caller = returned (some err_timeout);
          timeouts = q.timeouts + 1;
          done = q.done || cfg.cancel;
        })

  pub data Reach : Call → Type 0 where
    start : Reach begun
    later : {q r : Call} → Reach q → Step q r → Reach r
