-- ===== src/ConcurrencyLimit/Queued/Alone.antt =====
-- Every call of an executor that has a queue, seen alone, is a run of the handshake.
use goresilience.Prelude.{
  ℕ, ◌+◌, ◌≤◌, ◌≡◌, ◌≢◌, refl, ap, ◌∙◌, ◌⊎◌, Option, none, some, List, [], ◌∷◌, ◌++◌, length, arith,
  if◌then◌else◌,
}
use goresilience.Prelude.Families.{write, write-each}
use goresilience.Errors.{Error, err_rejected_execution}
use goresilience.ConcurrencyLimit.Handshake
use goresilience.ConcurrencyLimit.Handshake.{Kind, returned}
use goresilience.ConcurrencyLimit.Handshake.Outcome.{Reach-result, Reach-steps_left}
use goresilience.ConcurrencyLimit.Queue.Dynamic
use goresilience.ConcurrencyLimit.Queue.Dynamic.{Queue, sending}
use goresilience.ConcurrencyLimit.Queue.Dynamic.Weights.{total-append}
use goresilience.ConcurrencyLimit.Queued.{
  Call, forwarding, System, new_executor, Step, call, send, within_queue, forward, hand,
  stop_forwarder, begin, skip, go, finish, notice, expire, cancel, collect, set_quantity, leave,
  Reach, start, later,
}
use goresilience.ConcurrencyLimit.Queued.Stages.{Advances, shown, waits, job_of, is, times}
use goresilience.ConcurrencyLimit.Queued.Refines.{
  QueueReach, sends_job, Reached, Inv, Step-AllFollow,
}

module _ (kind : Kind) where
  abbrev AllArrived : System → Type 0
  AllArrived s = (c : ℕ) → times c s.queue.arrived ≡ (if (s.calls c).sent then 1 else 0)

  -- The step of a call that does not send.
  sends_none :
      (s : System) (d : ℕ) (r : Call)
      → r.sent ≡ (s.calls d).sent
      → AllArrived s
      → AllArrived (record s { calls = write s.calls d r })
  sends_none s d r e all =
      write-each (λ c q. times c s.queue.arrived ≡ (if q.sent then 1 else 0)) s.calls d r
        (rw e (all d)) (λ c h. all c)

  comes_in : (c d : ℕ) (arrived : List ℕ) → times c (arrived ++ d ∷ []) ≡ times c arrived + is c d
  comes_in c d arrived = total-append (is c) arrived (d ∷ []) ∙ omega arith

  Step-AllArrived : {s t : System} → AllArrived s → Step kind s t → AllArrived t
  Step-AllArrived {s} all (call c e) = sends_none s c _ refl all
  Step-AllArrived {s} all (send c e n r) =
      write-each (λ d q. times d (s.queue.arrived ++ c ∷ []) ≡ (if q.sent then 1 else 0)) s.calls c
        _ (comes_in c c s.queue.arrived ∙ ground (arith, all c, n))
        (λ d h. comes_in d c s.queue.arrived ∙ ground (arith, all d))
  Step-AllArrived {s} all (within_queue {q} st a d) = λ c. ap (times c) a ∙ all c
  Step-AllArrived {s} all (forward job f q) = all
  Step-AllArrived {s} all (hand c i f n w) = all
  Step-AllArrived {s} all (stop_forwarder f q) = all
  Step-AllArrived {s} all (begin c i w) = sends_none s c _ refl all
  Step-AllArrived {s} all (skip c i w e) = sends_none s c _ refl all
  Step-AllArrived {s} all (go c i w e) = all
  Step-AllArrived {s} all (finish c i err w e) = sends_none s c _ refl all
  Step-AllArrived {s} all (notice c n e d) = sends_none s c _ refl all
  Step-AllArrived {s} all (expire c n e) = sends_none s c _ refl all
  Step-AllArrived {s} all (cancel c e) = sends_none s c _ refl all
  Step-AllArrived {s} all (collect c err e r) = sends_none s c _ refl all
  Step-AllArrived {s} all (set_quantity q) = all
  Step-AllArrived {s} all (leave i k e w) = all

  Step-QueueReach :
      {s t : System} → QueueReach kind s.queue → Step kind s t → QueueReach kind t.queue
  Step-QueueReach reach (send c e n r) = Dynamic.later reach (Dynamic.receive c r)
  Step-QueueReach reach (within_queue st a d) = Dynamic.later reach st
  Step-QueueReach reach (forward job f q) = Dynamic.later reach (Dynamic.deliver job q)
  Step-QueueReach reach (call c e) = reach
  Step-QueueReach reach (hand c i f n w) = reach
  Step-QueueReach reach (stop_forwarder f q) = reach
  Step-QueueReach reach (begin c i w) = reach
  Step-QueueReach reach (skip c i w e) = reach
  Step-QueueReach reach (go c i w e) = reach
  Step-QueueReach reach (finish c i err w e) = reach
  Step-QueueReach reach (notice c n e d) = reach
  Step-QueueReach reach (expire c n e) = reach
  Step-QueueReach reach (cancel c e) = reach
  Step-QueueReach reach (collect c err e r) = reach
  Step-QueueReach reach (set_quantity q) = reach
  Step-QueueReach reach (leave i k e w) = reach

  Step-passes_job : {s t : System} → Inv kind s → Step kind s t → t.forwarder ≢ forwarding none
  Step-passes_job {s} inv (forward none f q) = absurd (sends_job kind s.queue inv.queue q)
  Step-passes_job inv (forward (some d) f q) = λ e. cc
  Step-passes_job inv (hand c i f n w) = λ e. cc
  Step-passes_job inv (stop_forwarder f q) = λ e. cc
  Step-passes_job inv (send c e n r) = inv.passes_job
  Step-passes_job inv (within_queue st a d) = inv.passes_job
  Step-passes_job inv (call c e) = inv.passes_job
  Step-passes_job inv (begin c i w) = inv.passes_job
  Step-passes_job inv (skip c i w e) = inv.passes_job
  Step-passes_job inv (go c i w e) = inv.passes_job
  Step-passes_job inv (finish c i err w e) = inv.passes_job
  Step-passes_job inv (notice c n e d) = inv.passes_job
  Step-passes_job inv (expire c n e) = inv.passes_job
  Step-passes_job inv (cancel c e) = inv.passes_job
  Step-passes_job inv (collect c err e r) = inv.passes_job
  Step-passes_job inv (set_quantity q) = inv.passes_job
  Step-passes_job inv (leave i k e w) = inv.passes_job

  new_executor-Inv : Inv kind (new_executor kind)
  unfolding new_executor
  new_executor-Inv = record {
    queue = Dynamic.start;
    arrived = λ c. refl;
    passes_job = λ e. cc;
    follows = λ c. record {
      stage = waits;
      at_stage = record { marks = λ k. refl; handed = refl; passed = refl };
      run = (0, Handshake.start);
    };
  }

  -- What is reached in the handshake goes on to what is reached.
  advances : Advances kind (Reached kind) (Reached kind)
  advances = record {
    still = λ c x reach. reach;
    onward = λ c x y reach st. (reach.0 + 1, Handshake.later reach.1 st);
  }

  pub Reach-Inv : {s : System} → Reach kind s → Inv kind s
  Reach-Inv start = new_executor-Inv
  Reach-Inv (later before st) =
      let inv = Reach-Inv before in
      record {
        queue = Step-QueueReach inv.queue st;
        arrived = Step-AllArrived inv.arrived st;
        passes_job = Step-passes_job inv st;
        follows = Step-AllFollow kind (Reached kind) (Reached kind) advances inv st inv.follows;
      }

  -- Each call, with the place of its job, is one that the handshake reaches, in at most five steps.
  pub Reach-call :
      {s : System} (c : ℕ)
      → Reach kind s
      → (job : Handshake.Job) × (n : ℕ) × Handshake.Reach kind n (shown (s.calls c) job) × (n ≤ 5)
  Reach-call c reach =
      let v = (Reach-Inv reach).follows c in
      (job_of v.stage, v.run.0, v.run.1, omega (arith, Reach-steps_left kind v.run.1))

  -- Whatever the other calls do, a call that has returned returns what the one run of its own function
  -- has returned, or the error of a rejected execution, and its function has run once at most.
  pub Reach-returns :
      {s : System} (c : ℕ) (err : Option Error)
      → Reach kind s
      → (s.calls c).caller ≡ returned err
      → (((s.calls c).outcomes ≡ err ∷ []) ⊎ (err ≡ some err_rejected_execution))
        × (length (s.calls c).outcomes ≤ 1)
  Reach-returns c err reach e =
      let (job, n, run, few) = Reach-call c reach in Reach-result kind err run e
