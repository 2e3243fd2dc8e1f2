-- ===== src/Tests/Fifo.antt =====
-- Two calls of a FIFO executor with one worker: one job runs, the other call is rejected.
use goresilience.Prelude.{ℕ, ◌<◌, ◌≡◌, ◌≢◌, refl, ◌⊎◌, some, [], ◌∷◌, arith}
use goresilience.Prelude.Int.{pos}
use goresilience.Errors.{err_rejected_execution}
use goresilience.ConcurrencyLimit.Workers.{
  new_worker_pool, set_worker_quantity, increase_workers, decrease_workers,
}
use goresilience.ConcurrencyLimit.Fifo.Pooled.{
  running, System, new_fifo, call, hand, reject, set_quantity, Reach, start, later,
}
use goresilience.ConcurrencyLimit.Fifo.Pooled.Alone.{Reach-concludes}

one_worker : 0 < 1
one_worker = omega arith

abbrev busy : (s : System) × Reach s
unfolding new_fifo set_worker_quantity increase_workers decrease_workers new_worker_pool
busy =
    let s = later (later (later start (set_quantity (pos 1))) (call 0 refl)) (call 1 refl) in
    (_, later s (hand 0 0 refl refl one_worker refl))

abbrev rejected : (s : System) × Reach s
unfolding busy new_fifo set_worker_quantity increase_workers decrease_workers new_worker_pool
rejected = (_, later busy.1 (reject 1 refl refl))

Reach-concludes_example :
    ((rejected.0.calls 1).outcomes ≡ some err_rejected_execution ∷ [])
    ⊎ (((rejected.0.calls 1).outcomes ≡ [])
        × ((i : ℕ) → rejected.0.workers i ≢ running 1)
        × (some err_rejected_execution ≡ some err_rejected_execution))
unfolding rejected
Reach-concludes_example = Reach-concludes 1 (some err_rejected_execution) rejected.1 refl
