-- ===== src/ConcurrencyLimit/Limited/Settings.antt =====
-- concurrencylimit/concurrencylimit.go: what a user sets, and the defaults. The limiter of
-- `limit.NewAIMD` and the executor of `execute.NewFIFO` are objects that these calls make.
use goresilience.Prelude.{◌≡◌, ◌↔◌, Option, none, some}
use goresilience.Errors.{Error, err_rejected_execution}
use goresilience.Metrics.{Context}
use goresilience.ConcurrencyLimit.Limit.{Result, failure, Limiter}
use goresilience.ConcurrencyLimit.Policy.{failure_on_rejected_policy, policies_opposite}
use goresilience.ConcurrencyLimit.Limited.{Executor, Config}

-- `none` is nil.
pub record Settings (W : Type 0) : Type 0 where
  pub limiter : Option (Limiter W)
  pub executor : Option (Executor W)
  pub execution_result_policy : Option (Context W → Option Error → Result)

module _ {W : Type 0} (new_aimd : Limiter W) (new_fifo : Executor W) where
  unfoldable pub defaults : Settings W → Config W
  defaults c = record {
    limiter = elim c.limiter [ none ↦ new_aimd | some limiter ↦ limiter ];
    executor = elim c.executor [ none ↦ new_fifo | some executor ↦ executor ];
    execution_result_policy = elim c.execution_result_policy [
      | none ↦ λ ctx. failure_on_rejected_policy
      | some policy ↦ policy
    ];
  }

  -- Without a policy of the user, a failure is counted exactly for a rejected execution.
  pub defaults-failure :
      (c : Settings W) (ctx : Context W) (err : Option Error)
      → c.execution_result_policy ≡ none
      → ((defaults c).execution_result_policy ctx err ≡ failure)
        ↔ (err ≡ some err_rejected_execution)
  unfolding defaults
  defaults-failure c ctx err e = rw e (policies_opposite err).1
