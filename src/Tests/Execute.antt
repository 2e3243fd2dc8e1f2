-- ===== src/Tests/Execute.antt =====
-- The worker pool and the queues on short runs.
use mathlib.Core.List.{map, reverse}
use goresilience.Prelude.{
  ℕ, ◌≡◌, ◌⊎◌, refl, true, false, some, List, [], ◌∷◌, ◌++◌, replicate, arith,
}
use goresilience.Prelude.Int.{ℤ, pos, negsuc}
use goresilience.ConcurrencyLimit.Workers.{
  new_worker_pool, increase_workers, decrease_workers, set_worker_quantity,
}
use goresilience.ConcurrencyLimit.Workers.Accounts.{set_all}
use goresilience.ConcurrencyLimit.Queue.{
  inc, enqueue_at_end_policy, fifo_dequeue_policy, lifo_dequeue_policy,
}
use goresilience.ConcurrencyLimit.Queue.Order.{enqueue_all, dequeue_all, dequeue_all-enqueue_all}
use goresilience.ConcurrencyLimit.Queue.Dynamic.{
  Step, lifo, Queue, Reach, start, later, receive, count_in, enqueue, go_on, find_empty, signalling,
  sleeping,
}
use goresilience.ConcurrencyLimit.Queue.Dynamic.Wakeup.{Reach-wakes_up}
use goresilience.ConcurrencyLimit.Queue.Dynamic.Progress.{Advances, Reach-Advances}
use goresilience.ConcurrencyLimit.Queue.Dynamic.Weights.{total, outgoing, IsFull}
use goresilience.ConcurrencyLimit.Queue.Dynamic.Jobs.{Reach-keeps_jobs}

abbrev quantities : List ℤ
quantities = pos 3 ∷ negsuc 4 ∷ pos 1 ∷ pos 2 ∷ []

-- Two channels are closed, the oldest first.
pool :
    set_all quantities new_worker_pool
    ≡ record { worker_stoppers = 2 ∷ 3 ∷ []; closed = 0 ∷ 1 ∷ []; fresh = 4 }
unfolding set_all set_worker_quantity increase_workers decrease_workers new_worker_pool
pool = refl

dequeue_all-enqueue_all_example :
    (dequeue_all {J = ℕ} (replicate 3 fifo_dequeue_policy) (enqueue_all {J = ℕ} (1 ∷ 2 ∷ 3 ∷ []) [])
      ≡ (map some (1 ∷ 2 ∷ 3 ∷ []), []))
    × (dequeue_all {J = ℕ}
          (replicate 3 lifo_dequeue_policy)
          (enqueue_all {J = ℕ} (1 ∷ 2 ∷ 3 ∷ []) [])
        ≡ (map some (reverse (1 ∷ 2 ∷ 3 ∷ [])), []))
dequeue_all-enqueue_all_example = dequeue_all-enqueue_all {J = ℕ} (1 ∷ 2 ∷ 3 ∷ [])

-- The dequeuer has gone to sleep, and a job arrives.
abbrev asleep_on_job : Queue ℕ
asleep_on_job = record {
  jobs = 7 ∷ [];
  policy = lifo;
  stats = record { last_time_empty = 4; size = pos 1 };
  wake_up = false;
  stopped = false;
  enqueuer = signalling;
  dequeuer = sleeping;
  arrived = 7 ∷ [];
  delivered = [];
}

asleep_on_job-Reach : Reach lifo asleep_on_job
unfolding enqueue_at_end_policy inc
asleep_on_job-Reach =
    later
      (later
        (later (later (later start (go_on refl refl)) (find_empty refl (λ e. ground arith) refl))
          (receive 7 refl))
        (count_in 4 7 refl))
      (enqueue 7 refl)

Reach-wakes_up_example : (false ≡ true) ⊎ (asleep_on_job.enqueuer ≡ signalling)
Reach-wakes_up_example = Reach-wakes_up asleep_on_job-Reach refl (λ e. ground arith)

Reach-keeps_jobs_example :
    IsFull (asleep_on_job.delivered ++ outgoing asleep_on_job.dequeuer)
    × (total {J = ℕ} (λ n. 1) (7 ∷ []) ≡ 1)
Reach-keeps_jobs_example = Reach-keeps_jobs (λ n. 1) asleep_on_job-Reach

Reach-Advances_example : (r : Queue ℕ) × Step asleep_on_job r × Advances asleep_on_job r
Reach-Advances_example = Reach-Advances asleep_on_job-Reach (λ e. ground arith) (λ e. ground arith)
