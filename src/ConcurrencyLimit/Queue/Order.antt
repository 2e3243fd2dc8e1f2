-- ===== src/ConcurrencyLimit/Queue/Order.antt =====
-- In which order jobs leave the queue.
use mathlib.Core.List.{reverse, reverse-cons, reverse-reverse, append-nil, append_assoc, map}
use goresilience.Prelude.{
  ◌-◌, ◌≡◌, refl, sym, ap, ◌∙◌, Option, some, List, [], ◌∷◌, ◌++◌, length, get_elem?, take,
  replicate, arith, length-append,
}
use goresilience.ConcurrencyLimit.Queue.{
  DequeuePolicy, enqueue_at_end_policy, lifo_dequeue_policy, fifo_dequeue_policy,
}

module _ {J : Type 0} where
  get_elem?-last : (xs : List J) (y : J) → get_elem? (xs ++ y ∷ []) (length xs) ≡ some y
  get_elem?-last [] y = refl
  get_elem?-last (x ∷ xs) y = get_elem?-last xs y

  take-but_last : (xs : List J) (y : J) → take (length xs) (xs ++ y ∷ []) ≡ xs
  take-but_last [] y = refl
  take-but_last (x ∷ xs) y = ap (◌∷◌ x) (take-but_last xs y)

  length-snoc : (xs : List J) (y : J) → length (xs ++ y ∷ []) - 1 ≡ length xs
  length-snoc xs y = omega (arith, length-append xs (y ∷ []))

  -- Last in, first out: a job that is enqueued is the next to be dequeued, and the queue is then what
  -- it was before.
  pub lifo_dequeue_policy-enqueue :
      (job : J) (queue : List J)
      → lifo_dequeue_policy (enqueue_at_end_policy job queue) ≡ (some job, queue)
  unfolding lifo_dequeue_policy enqueue_at_end_policy
  lifo_dequeue_policy-enqueue job [] = refl
  lifo_dequeue_policy-enqueue job (a ∷ []) = refl
  lifo_dequeue_policy-enqueue job (a ∷ b ∷ rest) =
      let queue = a ∷ b ∷ rest in
      let whole = queue ++ job ∷ [] in
      ap {B = Option J × List J} (λ n. (get_elem? whole n, take n whole)) (length-snoc queue job)
      ∙ ap (λ x. (x, take (length queue) whole)) (get_elem?-last queue job)
      ∙ ap (λ x. (some job, x)) (take-but_last queue job)

  pub lifo_at_end :
      (job : J) (queue : List J) → lifo_dequeue_policy (queue ++ job ∷ []) ≡ (some job, queue)
  unfolding enqueue_at_end_policy
  lifo_at_end job queue = lifo_dequeue_policy-enqueue job queue

  -- A batch of jobs, enqueued one after another.
  unfoldable pub enqueue_all : List J → List J → List J
  enqueue_all [] queue = queue
  enqueue_all (job ∷ jobs) queue = enqueue_all jobs (enqueue_at_end_policy job queue)

  -- As many jobs as there are policies, each by the policy that is set then.
  unfoldable pub dequeue_all : List (DequeuePolicy J) → List J → List (Option J) × List J
  dequeue_all [] queue = ([], queue)
  dequeue_all (policy ∷ policies) queue =
      let r = policy queue in let rest = dequeue_all policies r.1 in (r.0 ∷ rest.0, rest.1)

  enqueue_all-append : (jobs queue : List J) → enqueue_all jobs queue ≡ queue ++ jobs
  unfolding enqueue_all enqueue_at_end_policy
  enqueue_all-append [] queue = sym (append-nil queue)
  enqueue_all-append (job ∷ jobs) queue =
      enqueue_all-append jobs (queue ++ job ∷ []) ∙ append_assoc queue (job ∷ []) jobs

  dequeue_all-fifo :
      (jobs queue : List J)
      → dequeue_all (replicate (length jobs) fifo_dequeue_policy) (jobs ++ queue)
        ≡ (map some jobs, queue)
  unfolding dequeue_all fifo_dequeue_policy
  dequeue_all-fifo [] queue = refl
  dequeue_all-fifo (job ∷ jobs) queue =
      ap {B = List (Option J) × List J} (λ r. (some job ∷ r.0, r.1)) (dequeue_all-fifo jobs queue)

  dequeue_all-lifo :
      (jobs queue : List J)
      → dequeue_all (replicate (length jobs) lifo_dequeue_policy) (queue ++ reverse jobs)
        ≡ (map some jobs, queue)
  unfolding dequeue_all
  dequeue_all-lifo [] queue = ap (λ q. ([], q)) (append-nil queue)
  dequeue_all-lifo (job ∷ jobs) queue =
      let newest : lifo_dequeue_policy (queue ++ reverse (job ∷ jobs))
          ≡ (some job, queue ++ reverse jobs) =
        ap lifo_dequeue_policy (
          ap (◌++◌ queue) (reverse-cons job jobs)
          ∙ sym (append_assoc queue (reverse jobs) (job ∷ [])))
        ∙ lifo_at_end job (queue ++ reverse jobs) in
      rw newest (
        ap {B = List (Option J) × List J} (λ r. (some job ∷ r.0, r.1))
          (dequeue_all-lifo jobs queue))

  length-reverse : (xs : List J) → length (reverse xs) ≡ length xs
  length-reverse [] = refl
  length-reverse (x ∷ xs) =
      ap length (reverse-cons x xs)
      ∙ omega (arith, length-append (reverse xs) (x ∷ []), length-reverse xs)

  -- A batch that is enqueued on an empty queue comes out in the same order under the FIFO policy, and
  -- in the reverse order under the LIFO policy; each time the queue is empty afterwards.
  pub dequeue_all-enqueue_all :
      (jobs : List J)
      → let queue = enqueue_all jobs [] in
        (dequeue_all (replicate (length jobs) fifo_dequeue_policy) queue ≡ (map some jobs, []))
        × (dequeue_all (replicate (length jobs) lifo_dequeue_policy) queue
            ≡ (map some (reverse jobs), []))
  dequeue_all-enqueue_all jobs = (
    ap (dequeue_all (replicate (length jobs) fifo_dequeue_policy))
          (enqueue_all-append jobs [] ∙ sym (append-nil jobs))
        ∙ dequeue_all-fifo jobs [],
    ap (dequeue_all (replicate (length jobs) lifo_dequeue_policy))
          (enqueue_all-append jobs [] ∙ sym (reverse-reverse jobs))
        ∙ ap (λ n. dequeue_all (replicate n lifo_dequeue_policy) (reverse (reverse jobs)))
            (sym (length-reverse jobs))
        ∙ dequeue_all-lifo (reverse jobs) [],
  )
