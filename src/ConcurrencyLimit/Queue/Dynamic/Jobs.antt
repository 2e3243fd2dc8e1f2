-- ===== src/ConcurrencyLimit/Queue/Dynamic/Jobs.antt =====
-- The jobs that go through the dynamic queue.
use mathlib.Core.List.{append-nil}
use goresilience.Prelude.{
  ℕ, ◌+◌, ◌≡◌, ◌≢◌, refl, sym, ap, ◌∙◌, Option, some, List, [], ◌∷◌, ◌++◌, arith, Bool, true, false,
}
use goresilience.ConcurrencyLimit.Queue.{QueueStats, inc, decr, enqueue_at_end_policy}
use goresilience.ConcurrencyLimit.Queue.Dynamic.{
  Policy, Enqueuer, receiving, received_job, counted_job, signalling, enqueuer_stopped, Dequeuer,
  looking, checking, sleeping, awake, popping, popped, sending, dequeuer_stopped, Queue,
  new_dynamic_queue, Step, set_dequeue_policy, ask_since_last_empty, close_stop, receive, count_in,
  count_out, enqueue, signal, stop_enqueuer, stop_dequeuer, go_on, find_empty, find_job, wake,
  still_empty, woken_by_job, pop, deliver, Reach, start, later,
}
use goresilience.ConcurrencyLimit.Queue.Dynamic.Weights.{
  total, total-append, incoming, outgoing, jobs_of, jobs_of-append, IsFull, IsFull-along,
  jobs_of-snoc, snoc-full, dequeue-takes,
}

module _ {J : Type 0} (weight : J → ℕ) where
  pub record Inv (q : Queue J) : Type 0 where
    pub has_job : q.dequeuer ≡ popping → q.jobs ≢ []
    pub no_nil : IsFull (q.delivered ++ outgoing q.dequeuer)
    pub counted :
        total weight q.arrived
        ≡ total weight (jobs_of (q.delivered ++ outgoing q.dequeuer))
          + total weight q.jobs
          + total weight (incoming q.enqueuer)

  new_dynamic_queue-Inv : (p : Policy) → Inv (new_dynamic_queue p)
  new_dynamic_queue-Inv p = record { has_job = λ e. ground arith; no_nil = refl; counted = refl }

  -- The dequeuer moves without a job.
  turn-Inv :
      (d : Dequeuer J) (w : Bool) (t : QueueStats) (q : Queue J)
      → Inv q
      → outgoing q.dequeuer ≡ outgoing d
      → (d ≡ popping → q.jobs ≢ [])
      → Inv (record q { dequeuer = d; wake_up = w; stats = t })
  turn-Inv d w t q v same full = record {
    has_job = full;
    no_nil = rw (sym same) v.no_nil;
    counted = rw (sym same) v.counted;
  }

  -- The enqueuer moves without a job.
  settle-Inv :
      (n : Enqueuer J) (w : Bool) (t : QueueStats) (q : Queue J)
      → Inv q
      → incoming q.enqueuer ≡ incoming n
      → Inv (record q { enqueuer = n; wake_up = w; stats = t })
  settle-Inv n w t q v same = record {
    has_job = v.has_job;
    no_nil = v.no_nil;
    counted = rw (sym same) v.counted;
  }

  receive-Inv :
      (job : J) (q : Queue J)
      → Inv q
      → q.enqueuer ≡ receiving
      → Inv (record q { enqueuer = received_job job; arrived = q.arrived ++ job ∷ [] })
  receive-Inv job q v e = record {
    has_job = v.has_job;
    no_nil = v.no_nil;
    counted = omega (
      arith,
      v.counted,
      total-append weight q.arrived (job ∷ []),
      ap (λ n. total weight (incoming n)) e,
    );
  }

  enqueue-Inv :
      (job : J) (q : Queue J)
      → Inv q
      → q.enqueuer ≡ counted_job job
      → Inv (record q { enqueuer = signalling; jobs = q.jobs ++ job ∷ [] })
  enqueue-Inv job q v e = record {
    has_job = λ p empty. snoc-full q.jobs job empty;
    no_nil = v.no_nil;
    counted = omega (
      arith,
      v.counted,
      total-append weight q.jobs (job ∷ []),
      ap (λ n. total weight (incoming n)) e,
    );
  }

  pop-Inv :
      (job : J) (rest : List J) (q : Queue J)
      → Inv q
      → q.dequeuer ≡ popping
      → total weight q.jobs ≡ weight job + total weight rest
      → Inv (record q { dequeuer = popped (some job); jobs = rest })
  pop-Inv job rest q v e taken =
      let none_held = ap (λ d. q.delivered ++ outgoing d) e ∙ append-nil q.delivered in
      record {
        has_job = λ p. ground arith;
        no_nil = jobs_of-snoc job q.delivered (IsFull-along none_held v.no_nil);
        counted = omega (
          arith,
          v.counted,
          taken,
          ap (λ xs. total weight (jobs_of xs)) none_held,
          ap (total weight) (jobs_of-append q.delivered (some job ∷ [])),
          total-append weight (jobs_of q.delivered) (job ∷ []),
        );
      }

  deliver-Inv :
      (job : Option J) (q : Queue J)
      → Inv q
      → q.dequeuer ≡ sending job
      → Inv (record q { dequeuer = looking; delivered = q.delivered ++ job ∷ [] })
  deliver-Inv job q v e =
      let same =
        append-nil (q.delivered ++ job ∷ []) ∙ sym (ap (λ d. q.delivered ++ outgoing d) e) in
      record { has_job = λ p. ground arith; no_nil = rw same v.no_nil; counted = rw same v.counted }

  Step-Inv : {q r : Queue J} → Step q r → Inv q → Inv r
  unfolding enqueue_at_end_policy
  Step-Inv (set_dequeue_policy p) v = record {
    has_job = v.has_job;
    no_nil = v.no_nil;
    counted = v.counted;
  }
  Step-Inv (ask_since_last_empty now) v = record {
    has_job = v.has_job;
    no_nil = v.no_nil;
    counted = v.counted;
  }
  Step-Inv close_stop v = record { has_job = v.has_job; no_nil = v.no_nil; counted = v.counted }
  Step-Inv {q = q} (receive job e) v = receive-Inv job q v e
  Step-Inv {q = q} (count_in now job e) v =
      settle-Inv (counted_job job) q.wake_up (inc now q.stats) q v (ap incoming e)
  Step-Inv {q = q} (enqueue job e) v = enqueue-Inv job q v e
  Step-Inv {q = q} (signal e) v = settle-Inv receiving true q.stats q v (ap incoming e)
  Step-Inv {q = q} (stop_enqueuer e f) v =
      settle-Inv enqueuer_stopped q.wake_up q.stats q v (ap incoming e)
  Step-Inv {q = q} (stop_dequeuer e f) v =
      turn-Inv dequeuer_stopped q.wake_up q.stats q v (ap outgoing e) (λ p. ground arith)
  Step-Inv {q = q} (go_on e f) v =
      turn-Inv checking q.wake_up q.stats q v (ap outgoing e) (λ p. ground arith)
  Step-Inv {q = q} (find_empty e f empty) v =
      turn-Inv sleeping q.wake_up q.stats q v (ap outgoing e) (λ p. ground arith)
  Step-Inv {q = q} (find_job e f full) v =
      turn-Inv popping q.wake_up q.stats q v (ap outgoing e) (λ p. full)
  Step-Inv {q = q} (wake e f) v =
      turn-Inv awake false q.stats q v (ap outgoing e) (λ p. ground arith)
  Step-Inv {q = q} (still_empty e f empty) v =
      turn-Inv looking q.wake_up q.stats q v (ap outgoing e) (λ p. ground arith)
  Step-Inv {q = q} (woken_by_job e f full) v =
      turn-Inv popping q.wake_up q.stats q v (ap outgoing e) (λ p. full)
  Step-Inv {q = q} (pop job rest e f eq) v =
      let (j, left, took, taken) = dequeue-takes weight q.policy q.jobs (v.has_job e) in
      rw (sym (ap (λ x. x.0) eq) ∙ ap (λ x. x.0) took, sym (ap (λ x. x.1) eq) ∙ ap (λ x. x.1) took)
        (pop-Inv j left q v e taken)
  Step-Inv {q = q} (count_out now job e) v =
      turn-Inv (sending job) q.wake_up (decr now q.stats) q v (ap outgoing e) (λ p. ground arith)
  Step-Inv {q = q} (deliver job e) v = deliver-Inv job q v e

  pub Reach-Inv : {p : Policy} {q : Queue J} → Reach p q → Inv q
  Reach-Inv {p = p} start = new_dynamic_queue-Inv p
  Reach-Inv (later before st) = Step-Inv st (Reach-Inv before)

-- In every interleaving the dequeuer sends no nil job, and what has arrived is, as a multiset, what
-- has been delivered or is about to be, what waits, and what the enqueuer holds: no job
-- is lost, and none is made up or delivered twice.
pub Reach-keeps_jobs :
    {J : Type 0} (weight : J → ℕ) {p : Policy} {q : Queue J}
    → Reach p q
    → let out = q.delivered ++ outgoing q.dequeuer in
      IsFull out
      × (total weight q.arrived
          ≡ total weight (jobs_of out) + total weight q.jobs + total weight (incoming q.enqueuer))
Reach-keeps_jobs weight reach = let v = Reach-Inv weight reach in (v.no_nil, v.counted)
