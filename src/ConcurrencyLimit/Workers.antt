-- ===== src/ConcurrencyLimit/Workers.antt =====
-- concurrencylimit/execute/executor.go: the worker pool. A stop channel is a number; the goroutine of
-- a worker runs until its channel is closed.
use goresilience.Prelude.{
  ℕ, zero, suc, ◌+◌, ◌-◌, ◌≤◌, ◌<◌, ◌≡◌, refl, sym, ap, ◌∙◌, List, [], ◌∷◌, ◌++◌, length, take,
  drop, arith, ltb, ◌==◌, if◌then◌else◌,
}
use goresilience.Prelude.Int.{ℤ, pos, negsuc}
pub mod Accounts
pub mod Goroutines

-- The channels of the pool, oldest first; those that were closed, in order; the next new channel.
pub record WorkerPool : Type 0 where
  pub worker_stoppers : List ℕ
  pub closed : List ℕ
  pub fresh : ℕ

unfoldable pub new_worker_pool : WorkerPool
new_worker_pool = record { worker_stoppers = []; closed = []; fresh = 0 }

-- The loop of `increaseWorkers`.
unfoldable pub increase_workers : ℕ → WorkerPool → WorkerPool
increase_workers zero w = w
increase_workers (suc n) w =
    increase_workers n
      (record w { worker_stoppers = w.worker_stoppers ++ w.fresh ∷ []; fresh = suc w.fresh })

unfoldable pub decrease_workers : ℕ → WorkerPool → WorkerPool
decrease_workers workers w = record w {
  worker_stoppers = drop workers w.worker_stoppers;
  closed = w.closed ++ take workers w.worker_stoppers;
}

unfoldable pub set_worker_quantity : ℤ → WorkerPool → WorkerPool
unfolding increase_workers decrease_workers
set_worker_quantity (negsuc n) w = w
set_worker_quantity (pos quantity) w =
    if length w.worker_stoppers == quantity
    then w
    else if ltb (length w.worker_stoppers) quantity
    then increase_workers (quantity - length w.worker_stoppers) w
    else decrease_workers (length w.worker_stoppers - quantity) w
