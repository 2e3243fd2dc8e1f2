-- ===== src/ConcurrencyLimit/Fifo/Outcome.antt =====
-- What a call of the FIFO executor returns.
use goresilience.Prelude.{
  ℕ, ◌+◌, ◌≤◌, ◌≡◌, ◌≢◌, refl, ◌⊎◌, Option, none, some, [], ◌∷◌, held, arith,
}
use goresilience.Errors.{Error, err_rejected_execution}
use goresilience.ConcurrencyLimit.Fifo.{
  Caller, waiting, handed, returned, Job, offered, running, done, Call, Step, hand, reject, finish,
  collect, Reach, start, later,
}

-- What a call that has returned has run: once, with what it returns, or not at all.
abbrev pub Concluded : Call → Option Error → Type 0
Concluded q err =
    (q.outcomes ≡ err ∷ [])
    ⊎ ((q.outcomes ≡ []) × (q.job ≡ offered) × (err ≡ some err_rejected_execution))

abbrev pub Stands : Call → Caller → Type 0
Stands q waiting = (q.outcomes ≡ []) × (q.result ≡ none) × (q.job ≡ offered)
Stands q handed = (q.outcomes ≡ held q.result) × (q.job ≢ offered)
Stands q (returned err) = Concluded q err × (q.result ≡ none) × (q.job ≢ running)

pub record Inv (q : Call) : Type 0 where
  pub stands : Stands q q.caller
  pub finished : q.job ≡ done → q.outcomes ≢ []
  pub unfinished : q.job ≡ running → q.outcomes ≡ []

Step-Inv : {q r : Call} → Step q r → Inv q → Inv r
Step-Inv (hand e f) v = ground arith
Step-Inv (reject e) v = ground arith
Step-Inv (finish err e f) v = ground arith
Step-Inv (collect err e f) v = ground arith

pub Reach-Inv : {n : ℕ} {q : Call} → Reach n q → Inv q
Reach-Inv start = ground arith
Reach-Inv (later before st) = Step-Inv st (Reach-Inv before)

-- In every interleaving a call that has returned has either run its function exactly once, and
-- returns what that returned, or returns the error of a rejected execution, and then its function has
-- not run, and no worker has got the job.
pub Reach-Concluded :
    {n : ℕ} {q : Call} (err : Option Error) → Reach n q → q.caller ≡ returned err → Concluded q err
Reach-Concluded err reach e = ground (arith, (Reach-Inv reach).stands, e)

abbrev caller_steps : Caller → ℕ
caller_steps waiting = 3
caller_steps handed = 1
caller_steps (returned err) = 0

abbrev job_steps : Job → ℕ
job_steps running = 1
job_steps offered = 0
job_steps done = 0

abbrev steps_left : Call → ℕ
steps_left q = caller_steps q.caller + job_steps q.job

Step-steps_left : {q r : Call} → Step q r → steps_left r + 1 ≤ steps_left q
Step-steps_left (hand e f) = ground arith
Step-steps_left (reject e) = ground arith
Step-steps_left (finish err e f) = ground arith
Step-steps_left (collect err e f) = ground arith

Reach-steps_left : {n : ℕ} {q : Call} → Reach n q → n + steps_left q ≤ 3
Reach-steps_left start = omega arith
Reach-steps_left (later before st) = omega (arith, Reach-steps_left before, Step-steps_left st)

abbrev Next : Call → Type 0
Next q = (r : Call) × Step q r

collects :
    (q : Call) (j : Job) (r : Option (Option Error))
    → Inv q
    → q.caller ≡ handed
    → q.job ≡ j
    → q.result ≡ r
    → Next q
collects q offered r v e f g = absurd (ground (arith, v.stands))
collects q running r v e f g = (_, finish none f (ground (arith, v.stands, v.unfinished)))
collects q done none v e f g = absurd (ground (arith, v.stands, v.finished))
collects q done (some err) v e f g = (_, collect err e g)

next :
    (q : Call) (c : Caller)
    → Inv q
    → q.caller ≡ c
    → ((err : Option Error) → c ≢ returned err)
    → Next q
next q waiting v e h = (_, reject e)
next q handed v e h = collects q q.job q.result v e refl refl
next q (returned err) v e h = absurd (h err refl)

-- Every call returns, if its function does: no run has more than three steps, and a step is possible
-- as long as the caller has not returned.
pub Reach-goes_on_fifo :
    {n : ℕ} {q : Call}
    → Reach n q
    → ((err : Option Error) → q.caller ≢ returned err)
    → (n ≤ 3) × ((r : Call) × Step q r)
Reach-goes_on_fifo {q = q} reach h =
    (omega (arith, Reach-steps_left reach), next q q.caller (Reach-Inv reach) refl h)
