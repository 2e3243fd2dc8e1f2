-- ===== src/Tests/Limited.antt =====
-- The concurrency limit runner with AIMD, a worker pool, and an executor that runs the job at once.
use goresilience.Prelude.{ℕ, ◌+◌, refl, some, [], Option}
use goresilience.Prelude.Int.{ℤ, pos}
use goresilience.Errors.{Error, external}
use goresilience.Runtime.{Cell, Effect}
use goresilience.Metrics.{Context, recorder_from_context}
use goresilience.Runner.{Func, command}
use goresilience.ConcurrencyLimit.Limit.Aimd.{Aimd}
use goresilience.ConcurrencyLimit.Policy.{failure_on_external_error_policy}
use goresilience.ConcurrencyLimit.Workers.{WorkerPool, new_worker_pool}
use goresilience.ConcurrencyLimit.Limited.{Config, set_initial_limit}
use goresilience.ConcurrencyLimit.Limited.Tuned.{wired, IsTuned, IsWired, calls, calls-IsTuned}
use goresilience.Tests.World.{World, clock, background}
use goresilience.Tests.Thousandths.{thousandths}
use goresilience.Tests.Limit.{at_limit}

record Vars : Type 0 where
  flying : ℤ
  running : ℤ
  waited : ℤ
  tuner : Aimd ℕ
  workers : WorkerPool

abbrev inflights : Cell (World Vars) ℤ
inflights = record {
  get = λ w. w.own.flying;
  put = λ n w. record w { own = record w.own { flying = n } };
  get-put = λ a w. refl;
  put-put = λ a b w. refl;
}

abbrev executing : Cell (World Vars) ℤ
executing = record {
  get = λ w. w.own.running;
  put = λ n w. record w { own = record w.own { running = n } };
  get-put = λ a w. refl;
  put-put = λ a b w. refl;
}

abbrev queued : Cell (World Vars) ℤ
queued = record {
  get = λ w. w.own.waited;
  put = λ n w. record w { own = record w.own { waited = n } };
  get-put = λ a w. refl;
  put-put = λ a b w. refl;
}

abbrev aimd : Cell (World Vars) (Aimd ℕ)
aimd = record {
  get = λ w. w.own.tuner;
  put = λ a w. record w { own = record w.own { tuner = a } };
  get-put = λ a w. refl;
  put-put = λ a b w. refl;
}

abbrev pool : Cell (World Vars) WorkerPool
pool = record {
  get = λ w. w.own.workers;
  put = λ p w. record w { own = record w.own { workers = p } };
  get-put = λ a w. refl;
  put-put = λ a b w. refl;
}

abbrev at_once :
    Context (World Vars) → Effect (World Vars) (Option Error) → Effect (World Vars) (Option Error)
at_once ctx j w = j w

abbrev fails : Func (World Vars)
fails ctx w = (some (external 7), record w { time = w.time + 3 })

abbrev start : World Vars
start = record {
  time = 5;
  own = record {
    flying = pos 2;
    running = pos 1;
    waited = pos 0;
    tuner = at_limit 14_000;
    workers = new_worker_pool;
  };
  log = [];
}

abbrev config : Config (World Vars)
config =
    wired thousandths clock inflights executing queued aimd pool at_once
      (λ ctx. failure_on_external_error_policy) command background fails

own_variables :
    IsWired thousandths clock inflights executing queued aimd pool at_once
      (λ ctx. failure_on_external_error_policy)
      command
      background
      fails
unfolding command recorder_from_context
own_variables = record {
  measurements = λ m w. (refl, refl);
  queued_apart = λ d w. (refl, refl);
  inflights_apart = λ n w. (refl, refl);
  executing_apart = λ n w. (refl, refl);
  aimd_apart = λ a w. refl;
  pool_apart = λ p w. refl;
  runner_keeps = λ w t. t;
  execute_keeps = λ j kept w t. kept w t;
}

calls-IsTuned_example :
    IsTuned thousandths clock inflights executing queued aimd pool at_once
      (λ ctx. failure_on_external_error_policy)
      command
      background
      fails
      (calls thousandths clock inflights executing queued aimd pool at_once
        (λ ctx. failure_on_external_error_policy)
        command
        background
        fails
        2
        (set_initial_limit clock inflights executing queued config start))
calls-IsTuned_example =
    calls-IsTuned thousandths clock inflights executing queued aimd pool at_once
      (λ ctx. failure_on_external_error_policy) command background fails own_variables 2 start refl
