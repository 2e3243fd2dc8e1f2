-- ===== src/ConcurrencyLimit/Handshake/Outcome.antt =====
-- What a call of the LIFO or the CoDel executor returns.
use goresilience.Prelude.{
  ℕ, ◌+◌, ◌≤◌, ◌≡◌, ◌≢◌, refl, ◌⊎◌, inl, inr, true, false, Option, none, some, [], ◌∷◌, length,
  held, length-held, arith,
}
use goresilience.Errors.{Error, err_rejected_execution}
use goresilience.ConcurrencyLimit.Handshake.{
  Kind, Caller, waiting, cancelling, collecting, returned, Job, queued, started, running, skipped,
  done, Call, submitted, Step, dequeue, skip, go, finish, notice, expire, cancel, collect, Reach,
  start, later,
}

-- What the job has run so far, and what is in `res` if nobody has taken it out.
abbrev pub Ran : Call → Job → Type 0
Ran q queued = (q.outcomes ≡ []) × (q.dequeued ≡ false)
Ran q started = (q.outcomes ≡ []) × (q.dequeued ≡ true)
Ran q running = (q.outcomes ≡ []) × (q.dequeued ≡ true)
Ran q skipped = (q.outcomes ≡ []) × (q.dequeued ≡ true)
Ran q done = q.dequeued ≡ true

abbrev pub Stands : Call → Caller → Type 0
Stands q waiting = (q.canceled ≡ false) × (q.job ≢ skipped) × (q.outcomes ≡ held q.res)
Stands q cancelling = (q.canceled ≡ false) × (q.job ≢ skipped) × (q.outcomes ≡ held q.res)
Stands q collecting =
    (q.canceled ≡ false) × (q.job ≢ skipped) × (q.outcomes ≡ held q.res) × (q.dequeued ≡ true)
Stands q (returned err) =
    ((q.outcomes ≡ err ∷ []) × (q.job ≡ done) × (q.canceled ≡ false))
    ⊎ ((err ≡ some err_rejected_execution) × (q.outcomes ≡ held q.res))

once : (q : Call) (c : Caller) → Stands q c → length q.outcomes ≤ 1
once q waiting v = rw v.2 (length-held q.res)
once q cancelling v = rw v.2 (length-held q.res)
once q collecting v = rw v.2 (length-held q.res)
once q (returned err) (inl v) = rw v.0 (omega arith)
once q (returned err) (inr v) = rw v.1 (length-held q.res)

pub record Inv (q : Call) : Type 0 where
  pub ran : Ran q q.job
  pub stands : Stands q q.caller
  pub finished : q.job ≡ done → q.outcomes ≢ []

module _ (kind : Kind) where
  Step-Inv : {q r : Call} → Step kind q r → Inv q → Inv r
  Step-Inv (dequeue e) v = ground arith
  Step-Inv (skip e f) v = ground arith
  Step-Inv (go e f) v = ground arith
  Step-Inv (finish err e f) v = ground arith
  Step-Inv (notice e f) v = ground arith
  Step-Inv (expire e) v = ground arith
  Step-Inv (cancel e) v = ground arith
  Step-Inv (collect err e f) v = ground arith

  submitted-Inv : Inv submitted
  submitted-Inv = ground arith

  pub Reach-Inv : {n : ℕ} {q : Call} → Reach kind n q → Inv q
  Reach-Inv start = submitted-Inv
  Reach-Inv (later before st) = Step-Inv st (Reach-Inv before)

  -- In every interleaving a call that has returned returns what the one run of its function has
  -- returned, or the error of a rejected execution; in either case the function has run at most once.
  pub Reach-result :
      {n : ℕ} {q : Call} (err : Option Error)
      → Reach kind n q
      → q.caller ≡ returned err
      → ((q.outcomes ≡ err ∷ []) ⊎ (err ≡ some err_rejected_execution)) × (length q.outcomes ≤ 1)
  Reach-result {q = q} err reach e =
      let v = Reach-Inv reach in (ground (arith, v.stands, e), once q q.caller v.stands)

  abbrev caller_steps : Caller → ℕ
  caller_steps waiting = 2
  caller_steps cancelling = 1
  caller_steps collecting = 1
  caller_steps (returned err) = 0

  abbrev job_steps : Job → ℕ
  job_steps queued = 3
  job_steps started = 2
  job_steps running = 1
  job_steps skipped = 0
  job_steps done = 0

  abbrev steps_left : Call → ℕ
  steps_left q = caller_steps q.caller + job_steps q.job

  Step-steps_left : {q r : Call} → Step kind q r → steps_left r + 1 ≤ steps_left q
  Step-steps_left (dequeue e) = ground arith
  Step-steps_left (skip e f) = ground arith
  Step-steps_left (go e f) = ground arith
  Step-steps_left (finish err e f) = ground arith
  Step-steps_left (notice e f) = ground arith
  Step-steps_left (expire e) = ground arith
  Step-steps_left (cancel e) = ground arith
  Step-steps_left (collect err e f) = ground arith

  pub Reach-steps_left : {n : ℕ} {q : Call} → Reach kind n q → n + steps_left q ≤ 5
  Reach-steps_left start = omega arith
  Reach-steps_left (later before st) = omega (arith, Reach-steps_left before, Step-steps_left st)

  abbrev Next : Call → Type 0
  Next q = (r : Call) × Step kind q r

  -- A caller that waits for the result gets it: its job was not skipped.
  collects :
      (q : Call) (j : Job) (r : Option (Option Error))
      → Inv q
      → q.caller ≡ collecting
      → q.job ≡ j
      → q.res ≡ r
      → Next q
  collects q queued r v e f g = absurd (ground (arith, v.ran, v.stands))
  collects q started r v e f g = (_, go f (ground (arith, v.stands)))
  collects q running r v e f g = (_, finish none f (ground (arith, v.ran, v.stands)))
  collects q skipped r v e f g = absurd (ground (arith, v.stands))
  collects q done none v e f g = absurd (ground (arith, v.stands, v.finished))
  collects q done (some err) v e f g = (_, collect err e g)

  next :
      (q : Call) (c : Caller)
      → Inv q
      → q.caller ≡ c
      → ((err : Option Error) → c ≢ returned err)
      → Next q
  next q waiting v e h = (_, expire e)
  next q cancelling v e h = (_, cancel e)
  next q collecting v e h = collects q q.job q.res v e refl refl
  next q (returned err) v e h = absurd (h err refl)

  -- Every call returns, if its function does: no run has more than five steps, and a step is possible
  -- as long as the caller has not returned. So a caller never waits for a job that was skipped.
  pub Reach-next :
      {n : ℕ} {q : Call}
      → Reach kind n q
      → ((err : Option Error) → q.caller ≢ returned err)
      → (n ≤ 5) × ((r : Call) × Step kind q r)
  Reach-next {q = q} reach h =
      (omega (arith, Reach-steps_left reach), next q q.caller (Reach-Inv reach) refl h)
