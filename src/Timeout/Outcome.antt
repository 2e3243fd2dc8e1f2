-- ===== src/Timeout/Outcome.antt =====
-- What a call of the timeout runner returns, and when it can.
use mathlib.Core.Path.{subst}
use goresilience.Prelude.{
  ◌≡◌, refl, sym, ap, ◌∙◌, ◌⊎◌, inl, inr, Bool, true, ◌||◌, Option, none, some, arith,
}
use goresilience.Errors.{Error, err_timeout}
use goresilience.Timeout.{
  Config, Caller, waiting, returned, Call, Step, finish, close, take, give_up, Reach, start, later,
}

abbrev pub Finished : Call → Option Error → Type 0
Finished q err = (q.finished ≡ some err) × (q.timeouts ≡ 0)

abbrev pub TimedOut : Call → Option Error → Type 0
TimedOut q err = (err ≡ some err_timeout) × (q.timeouts ≡ 1) × (q.done ≡ true)

-- What is true of the call at each place of its caller.
abbrev Outcome : Call → Caller → Type 0
Outcome q waiting = (q.errc ≡ q.finished) × (q.timeouts ≡ 0)
Outcome q (returned err) = Finished q err ⊎ TimedOut q err

finish-Outcome :
    (err : Option Error) (q : Call) (c : Caller)
    → q.finished ≡ none
    → Outcome q c
    → Outcome (record q { errc = some err; finished = some err }) c
finish-Outcome err q waiting e v = (refl, v.1)
finish-Outcome err q (returned x) e (inl v) = absurd (none_is_not_some (sym e ∙ v.0))
  where
    none_is_not_some : none ≡ some x → ⊥
    none_is_not_some h = cc
finish-Outcome err q (returned x) e (inr v) = inr v

close-Outcome : (q : Call) (c : Caller) → Outcome q c → Outcome (record q { done = true }) c
close-Outcome q waiting v = v
close-Outcome q (returned x) (inl v) = inl v
close-Outcome q (returned x) (inr (a, b, _)) = inr (a, b, refl)

module _ (cfg : Config) where
  Step-Outcome : {q r : Call} → Step cfg q r → Outcome q q.caller → Outcome r r.caller
  Step-Outcome {q = q} (finish err e) v = finish-Outcome err q q.caller e v
  Step-Outcome {q = q} close v = close-Outcome q q.caller v
  Step-Outcome {q = q} (take err e f) v =
      let (same, never) = subst (Outcome q) e v in inl (sym same ∙ f, never)
  Step-Outcome {q = q} (give_up e f) v =
      let (same, never) = subst (Outcome q) e v in
      inr (refl, omega (arith, never), ap (λ d. d || cfg.cancel) f)

  Reach-Outcome : {q : Call} → Reach cfg q → Outcome q q.caller
  Reach-Outcome start = (refl, refl)
  Reach-Outcome (later before st) = Step-Outcome st (Reach-Outcome before)

  -- In every interleaving a call that has returned has returned what the runner returned, and then
  -- no timeout is counted, or the timeout error, and then exactly one is, and the context is done.
  pub Reach-returned :
      {q : Call} (err : Option Error)
      → Reach cfg q
      → q.caller ≡ returned err
      → Finished q err ⊎ TimedOut q err
  Reach-returned {q} err reach e = subst (Outcome q) e (Reach-Outcome reach)

  -- A call never hangs once the runner has returned or the context is done: while it has not
  -- returned, it can return in one step.
  pub Reach-returns :
      {q : Call}
      → Reach cfg q
      → q.caller ≡ waiting
      → (q.done ≡ true) ⊎ ((err : Option Error) × (q.finished ≡ some err))
      → (err : Option Error) × (r : Call) × Step cfg q r × (r.caller ≡ returned err)
  Reach-returns reach e (inl closed) = (some err_timeout, _, give_up e closed, refl)
  Reach-returns {q} reach e (inr (err, over)) =
      (err, _, take err e ((subst (Outcome q) e (Reach-Outcome reach)).0 ∙ over), refl)

  cancels : (d : Bool) → cfg.cancel ≡ true → (d || cfg.cancel) ≡ true
  cancels d c = ground (arith, c)

  -- With `Cancel` the context is done when the call has returned, so that what the runner still does
  -- can stop.
  pub Reach-cancelled :
      {q : Call} (err : Option Error)
      → Reach cfg q
      → cfg.cancel ≡ true
      → q.caller ≡ returned err
      → q.done ≡ true
  Reach-cancelled err start c e = ground arith
  Reach-cancelled err (later before (finish x f)) c e = Reach-cancelled err before c e
  Reach-cancelled err (later before close) c e = refl
  Reach-cancelled err (later before (take x f g)) c e = cancels _ c
  Reach-cancelled err (later before (give_up f g)) c e = cancels _ c
