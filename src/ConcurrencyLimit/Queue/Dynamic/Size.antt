-- ===== src/ConcurrencyLimit/Queue/Dynamic/Size.antt =====
-- The size that the statistics keep.
use goresilience.Prelude.{ℕ, ◌+◌, ◌≡◌, ◌≢◌, refl, sym, ap, ◌∙◌, List, [], ◌∷◌, arith}
use goresilience.Prelude.Int.{pos, ◌+ℤ◌, ◌-ℤ◌}
use goresilience.ConcurrencyLimit.Queue.{
  QueueStats, inc, decr, enqueue_at_end_policy, since_last_empty,
}
use goresilience.ConcurrencyLimit.Queue.Dynamic.{
  Policy, Enqueuer, receiving, received_job, counted_job, signalling, enqueuer_stopped, Dequeuer,
  looking, checking, sleeping, awake, popping, popped, sending, dequeuer_stopped, Queue, Step,
  set_dequeue_policy, ask_since_last_empty, close_stop, receive, count_in, enqueue, signal,
  stop_enqueuer, stop_dequeuer, go_on, find_empty, find_job, wake, still_empty, woken_by_job, pop,
  count_out, deliver, Reach, start, later,
}
use goresilience.ConcurrencyLimit.Queue.Dynamic.Weights.{total, total-append, dequeue-takes}
use goresilience.ConcurrencyLimit.Queue.Dynamic.Jobs.{Reach-Inv}

-- A job that is counted and not yet in the queue, and one that is out of it and still counted.
abbrev pub early : {J : Type 0} → Enqueuer J → ℕ
early (counted_job j) = 1
early (received_job j) = 0
early receiving = 0
early signalling = 0
early enqueuer_stopped = 0

abbrev pub late : {J : Type 0} → Dequeuer J → ℕ
late (popped j) = 1
late (sending j) = 0
late looking = 0
late checking = 0
late sleeping = 0
late awake = 0
late popping = 0
late dequeuer_stopped = 0

abbrev ones : {J : Type 0} → List J → ℕ
ones jobs = total (λ j. 1) jobs

abbrev IsCounted : {J : Type 0} → Queue J → Type 0
IsCounted q = q.stats.size ≡ pos (ones q.jobs + early q.enqueuer + late q.dequeuer)

inc-size : (now n : ℕ) (t : QueueStats) → t.size ≡ pos n → (inc now t).size ≡ pos (n + 1)
unfolding inc
inc-size now n t e = ap (λ z. z +ℤ pos 1) e ∙ ground arith

decr-size : (now n : ℕ) (t : QueueStats) → t.size ≡ pos (n + 1) → (decr now t).size ≡ pos n
unfolding decr
decr-size now n t e = ap (λ z. z -ℤ pos 1) e ∙ ground arith

Step-IsCounted :
    {J : Type 0} {q r : Queue J}
    → Step q r
    → (q.dequeuer ≡ popping → q.jobs ≢ [])
    → IsCounted q
    → IsCounted r
unfolding enqueue_at_end_policy since_last_empty
Step-IsCounted (set_dequeue_policy p) full v = v
Step-IsCounted (ask_since_last_empty now) full v = v
Step-IsCounted close_stop full v = v
Step-IsCounted (receive job e) full v = v ∙ ap pos (omega (arith, ap early e))
Step-IsCounted (count_in now job e) full v = inc-size now _ _ v ∙ ap pos (omega (arith, ap early e))
Step-IsCounted {q = q} (enqueue job e) full v =
    v ∙ ap pos (omega (arith, ap early e, total-append (λ j. 1) q.jobs (job ∷ [])))
Step-IsCounted (signal e) full v = v ∙ ap pos (omega (arith, ap early e))
Step-IsCounted (stop_enqueuer e f) full v = v ∙ ap pos (omega (arith, ap early e))
Step-IsCounted (stop_dequeuer e f) full v = v ∙ ap pos (omega (arith, ap late e))
Step-IsCounted (go_on e f) full v = v ∙ ap pos (omega (arith, ap late e))
Step-IsCounted (find_empty e f empty) full v = v ∙ ap pos (omega (arith, ap late e))
Step-IsCounted (find_job e f jobs) full v = v ∙ ap pos (omega (arith, ap late e))
Step-IsCounted (wake e f) full v = v ∙ ap pos (omega (arith, ap late e))
Step-IsCounted (still_empty e f empty) full v = v ∙ ap pos (omega (arith, ap late e))
Step-IsCounted (woken_by_job e f jobs) full v = v ∙ ap pos (omega (arith, ap late e))
Step-IsCounted {q = q} (pop job rest e f eq) full v =
    let (j, left, took, taken) = dequeue-takes (λ j. 1) q.policy q.jobs (full e) in
    let same = ap (λ x. ones x.1) (sym took ∙ eq) in
    v ∙ ap pos (omega (arith, ap late e, taken, same))
Step-IsCounted {q = q} (count_out now job e) full v =
    decr-size now _ q.stats (v ∙ ap pos (omega (arith, ap late e)))
Step-IsCounted (deliver job e) full v = v ∙ ap pos (omega (arith, ap late e))

-- In every interleaving the size of the statistics is the number of jobs in the queue, and one more
-- for each of a job that the enqueuer has counted and not yet queued, and a job that the dequeuer has
-- taken and not yet discounted; so it is never negative.
pub Reach-size :
    {J : Type 0} {p : Policy} {q : Queue J}
    → Reach p q
    → q.stats.size ≡ pos (total (λ j. 1) q.jobs + early q.enqueuer + late q.dequeuer)
Reach-size start = refl
Reach-size (later before st) =
    Step-IsCounted st (Reach-Inv (λ j. 1) before).has_job (Reach-size before)
