-- ===== src/ConcurrencyLimit/Limited/Concurrent/Answers.antt =====
-- What a call of `Run` returns and what it tells the limiter, while calls overlap.
use goresilience.Prelude.{ℕ, ◌≤◌, ◌≡◌, ◌≢◌, refl, ◌⊎◌, Option, some, List, [], ◌∷◌, length, arith}
use goresilience.Prelude.Int.{ℤ}
use goresilience.Prelude.Families.{write-each}
use goresilience.Errors.{Error, err_rejected_execution}
use goresilience.Runtime.{Clock}
use goresilience.ConcurrencyLimit.Limit.{Result, ignore, Limiter}
use goresilience.ConcurrencyLimit.Workers.{WorkerPool}
use goresilience.ConcurrencyLimit.Limited.Concurrent.{
  Caller, outside, started, counted, waiting, answered, leaving, judging, sampling, sampled, tuning,
  returned, Job, unsent, ran, ending, ended, Call, System, made, become, after_policy, tell_sample,
  Step, pass, enter, count_in, submit, dequeue, show_queued, begin, show_begun, run, end,
  show_ended, answer, reject, count_out, show_left, judge, tell, show_limit, tune, Steps, here,
  more,
}

-- What the limiter is told of a result.
abbrev pub told : Result → List Result
told ignore = []
told r = r ∷ []

-- What the job has run so far.
abbrev pub Ran : Call → Job → Type 0
Ran q (ran err) = q.outcomes ≡ err ∷ []
Ran q (ending err n) = q.outcomes ≡ err ∷ []
Ran q (ended err) = q.outcomes ≡ err ∷ []
Ran q _ = q.outcomes ≡ []

abbrev pub Answer : Call → Option Error → Type 0
Answer q err = (q.outcomes ≡ err ∷ []) ⊎ (err ≡ some err_rejected_execution)

-- `verdict` is the policy in the context of the call.
abbrev pub Stands : (Option Error → Result) → Call → Caller → Type 0
Stands verdict q outside = (q.job ≡ unsent) × (q.samples ≡ [])
Stands verdict q started = (q.job ≡ unsent) × (q.samples ≡ [])
Stands verdict q (counted n) = (q.job ≡ unsent) × (q.samples ≡ [])
Stands verdict q waiting = (q.job ≢ unsent) × (q.samples ≡ [])
Stands verdict q (answered err) = (q.job ≢ unsent) × Answer q err × (q.samples ≡ [])
Stands verdict q (leaving err n) = (q.job ≢ unsent) × Answer q err × (q.samples ≡ [])
Stands verdict q (judging err n) = (q.job ≢ unsent) × Answer q err × (q.samples ≡ [])
Stands verdict q (sampling err n r) =
    (q.job ≢ unsent) × Answer q err × (r ∷ [] ≡ told (verdict err)) × (q.samples ≡ [])
Stands verdict q (sampled err n) =
    (q.job ≢ unsent) × Answer q err × (q.samples ≡ told (verdict err))
Stands verdict q (tuning err n) = (q.job ≢ unsent) × Answer q err × (q.samples ≡ told (verdict err))
Stands verdict q (returned err) = (q.job ≢ unsent) × Answer q err × (q.samples ≡ told (verdict err))

pub record Inv (verdict : Option Error → Result) (q : Call) : Type 0 where
  pub ran_once : Ran q q.job
  pub stands : Stands verdict q q.caller

module _ {W : Type 0} (clock : Clock W) (limiter : Limiter W) (policy : ℕ → Option Error → Result)
    (calls : ℕ) where
  abbrev pub AllInv : System W → Type 0
  AllInv s = (c : ℕ) → Inv (policy c) (s.calls c)

  -- One call moves.
  moves : (s : System W) (c : ℕ) (q : Call) → Inv (policy c) q → AllInv s → AllInv (become c q s)
  moves s c q new all = write-each (λ d r. Inv (policy d) r) s.calls c q new (λ d h. all d)

  judged :
      (verdict : Option Error → Result) (q : Call) (err : Option Error) (n : ℤ)
      → Inv verdict q
      → q.caller ≡ judging err n
      → Inv verdict (record q { caller = after_policy err n (verdict err) })
  unfolding after_policy
  judged verdict q err n v e = ground arith

  Step-AllInv : {s t : System W} → Step clock limiter policy calls s t → AllInv s → AllInv t
  unfolding tell_sample
  Step-AllInv (pass d) v = v
  Step-AllInv {s} (enter c h e) v = moves s c _ (let i = v c in ground arith) v
  Step-AllInv {s} (count_in c h e) v = moves s c _ (let i = v c in ground arith) v
  Step-AllInv {s} (submit c n h e) v = moves s c _ (let i = v c in ground arith) v
  Step-AllInv {s} (dequeue c h e) v = moves s c _ (let i = v c in ground arith) v
  Step-AllInv {s} (show_queued c h e) v = moves s c _ (let i = v c in ground arith) v
  Step-AllInv {s} (begin c h e) v = moves s c _ (let i = v c in ground arith) v
  Step-AllInv {s} (show_begun c n h e) v = moves s c _ (let i = v c in ground arith) v
  Step-AllInv {s} (run c err h e) v = moves s c _ (let i = v c in ground arith) v
  Step-AllInv {s} (end c err h e) v = moves s c _ (let i = v c in ground arith) v
  Step-AllInv {s} (show_ended c err n h e) v = moves s c _ (let i = v c in ground arith) v
  Step-AllInv {s} (answer c err h e g) v = moves s c _ (let i = v c in ground arith) v
  Step-AllInv {s} (reject c h e) v = moves s c _ (let i = v c in ground arith) v
  Step-AllInv {s} (count_out c err h e) v = moves s c _ (let i = v c in ground arith) v
  Step-AllInv {s} (show_left c err n h e) v = moves s c _ (let i = v c in ground arith) v
  Step-AllInv {s} (judge c err n h e) v =
      moves s c _ (judged (policy c) (s.calls c) err n (v c) e) v
  Step-AllInv {s} (tell c err n r h e) v = moves s c _ (let i = v c in ground arith) v
  Step-AllInv {s} (show_limit c err n h e) v = moves s c _ (let i = v c in ground arith) v
  Step-AllInv {s} (tune c err n h e) v = moves s c _ (let i = v c in ground arith) v

  pub made-AllInv : (w : W) (p : WorkerPool) → AllInv (made w p)
  made-AllInv w p c = record { ran_once = refl; stands = (refl, refl) }

  pub Steps-AllInv : {s t : System W} → Steps clock limiter policy calls s t → AllInv s → AllInv t
  Steps-AllInv here v = v
  Steps-AllInv (more before st) v = Step-AllInv st (Steps-AllInv before v)

  once : (q : Call) (j : Job) → Ran q j → length q.outcomes ≤ 1
  once q j v = ground (arith, v)

  -- However calls overlap, a call that has returned returns what the one run of the next runner has
  -- returned, or the error of a rejected execution; the next runner has run once at most, and the limiter
  -- has been told the result of the policy once, or not at all if the policy said to ignore it.
  pub Steps-answers :
      {w : W} {p : WorkerPool} {s : System W} (c : ℕ) (err : Option Error)
      → Steps clock limiter policy calls (made w p) s
      → (s.calls c).caller ≡ returned err
      → Answer (s.calls c) err
        × (length (s.calls c).outcomes ≤ 1)
        × ((s.calls c).samples ≡ told (policy c err))
  Steps-answers {w} {p} {s} c err before e =
      let v = Steps-AllInv before (made-AllInv w p) c in
      let stands : Stands (policy c) (s.calls c) (returned err) = rw e at v.stands in
      (stands.1, once (s.calls c) (s.calls c).job v.ran_once, stands.2)
