-- ===== src/CircuitBreaker/Concurrent/Returned.antt =====
-- What overlapping calls of a circuit breaker return.
use mathlib.Core.Path.{subst}
use goresilience.Prelude.{
  ℕ, ◌≡◌, refl, sym, ap, ◌⊎◌, inl, inr, Bool, true, false, Option, some, List, [], ◌∷◌,
  if◌then◌else◌, Bool-cases,
}
use goresilience.Prelude.Families.{write-all}
use goresilience.Errors.{Error, err_circuit_open}
use goresilience.Float64.{Float64}
use goresilience.CircuitBreaker.{
  State, state_open, state_half_open, state_closed, CircuitBreaker, move_state, same_state,
}
use goresilience.CircuitBreaker.Concurrent.{
  Caller, half_opening, executing, executed, recorded, totalling, rating, moving, returned, System,
  made, stand, after_pre, after_execute, after_post, after_rate, move, Step, pass, tick, enter,
  look, half_open, choose, finish, record_result, evaluate, total, rate, move_on, Steps, here, more,
}

abbrev pub Outcomes : Type 0
Outcomes = List (Option Error)

-- What a call with a result has run: once, with this result, or not at all.
abbrev pub Settled : Outcomes → Option Error → Type 0
Settled os err = (os ≡ err ∷ []) ⊎ ((os ≡ []) × (err ≡ some err_circuit_open))

abbrev Fits : Outcomes → Caller → Type 0
Fits os (executed err) = Settled os err
Fits os (recorded err) = Settled os err
Fits os (totalling st err) = Settled os err
Fits os (rating st err) = Settled os err
Fits os (moving st err) = Settled os err
Fits os (returned err) = Settled os err
Fits os _ = os ≡ []

abbrev AllFit : System → Type 0
AllFit s = (c : ℕ) → Fits (s.calls c).outcomes (s.calls c).caller

after_pre-Fits : (st : State) (os : Outcomes) → os ≡ [] → Fits os (after_pre st)
unfolding after_pre
after_pre-Fits state_open os e = e
after_pre-Fits state_half_open os e = e
after_pre-Fits state_closed os e = e

after_execute-Fits : (st : State) (os : Outcomes) → os ≡ [] → Fits os (after_execute st)
unfolding after_execute
after_execute-Fits state_open os e = inr (e, refl)
after_execute-Fits state_half_open os e = e
after_execute-Fits state_closed os e = e

after_post-Fits :
    (st : State) (err : Option Error) (os : Outcomes) → Settled os err → Fits os (after_post st err)
unfolding after_post
after_post-Fits state_open err os v = v
after_post-Fits state_half_open err os v = v
after_post-Fits state_closed err os v = v

if-Fits :
    (b : Bool) (p q : Caller) (os : Outcomes) → Fits os p → Fits os q → Fits os (if b then p else q)
if-Fits true p q os v w = v
if-Fits false p q os v w = w

module _ {F : Type 0} (fl : Float64 F) where
  after_rate-Fits :
      (st : State) (err : Option Error) (b : CircuitBreaker) (os : Outcomes)
      → Settled os err
      → Fits os (after_rate fl st err b)
  unfolding after_rate
  after_rate-Fits state_open err b os v = if-Fits _ (moving state_open err) (returned err) os v v
  after_rate-Fits state_half_open err b os v = v
  after_rate-Fits state_closed err b os v = if-Fits _ (moving state_open err) (returned err) os v v

  move-calls : (st : State) (s : System) → (move fl st s).calls ≡ s.calls
  unfolding move move_state
  move-calls st s = elim (Bool-cases (same_state s.breaker.state st)) [
    | inl e ↦ rw e refl
    | inr e ↦ rw e refl
  ]

  -- One call goes to another place.
  stands :
      (s : System) (c : ℕ) (at : Caller)
      → Fits (s.calls c).outcomes at
      → AllFit s
      → AllFit (stand c at s)
  stands s c at v all =
      write-all (λ r. Fits r.outcomes r.caller) s.calls c (record (s.calls c) { caller = at }) v all

  -- What a call fits that is known to stand at a place.
  at_place :
      (s : System) (c : ℕ) (at : Caller)
      → AllFit s
      → (s.calls c).caller ≡ at
      → Fits (s.calls c).outcomes at
  at_place s c at all e = subst (Fits (s.calls c).outcomes) e (all c)

  -- The state is moved, and the call goes on to a place that asks for the same.
  moves :
      (s : System) (c : ℕ) (st : State) (from to : Caller)
      → ((os : Outcomes) → Fits os from → Fits os to)
      → (s.calls c).caller ≡ from
      → AllFit s
      → AllFit (stand c to (move fl st s))
  moves s c st from to same e all =
      let k = move-calls st s in
      let moved : AllFit (move fl st s) =
        subst (λ f. (d : ℕ) → Fits (f d).outcomes (f d).caller) (sym k) all in
      stands (move fl st s) c to
        (same _ (at_place (move fl st s) c from moved (subst (λ f. (f c).caller ≡ from) (sym k) e)))
        moved

  Step-AllFit : {s t : System} → Step fl s t → AllFit s → AllFit t
  Step-AllFit (pass d) all = all
  Step-AllFit (tick b e) all = all
  Step-AllFit {s} (enter c e) all =
      stands s c _ (after_pre-Fits s.breaker.state _ (at_place s c _ all e)) all
  Step-AllFit {s} (look c e) all =
      let v = at_place s c _ all e in stands s c _ (if-Fits _ half_opening executing _ v v) all
  Step-AllFit {s} (half_open c e) all =
      moves s c state_half_open half_opening executing (λ os v. v) e all
  Step-AllFit {s} (choose c e) all =
      stands s c _ (after_execute-Fits s.breaker.state _ (at_place s c _ all e)) all
  Step-AllFit {s} (finish c err e) all =
      write-all (λ r. Fits r.outcomes r.caller) s.calls c _
        (inl (ap (λ os. err ∷ os) (at_place s c _ all e))) all
  Step-AllFit {s} (record_result c err e) all = stands s c _ (at_place s c _ all e) all
  Step-AllFit {s} (evaluate c err e) all =
      stands s c _ (after_post-Fits s.breaker.state err _ (at_place s c _ all e)) all
  Step-AllFit {s} (total c st err e) all =
      let v = at_place s c _ all e in
      stands s c _ (if-Fits _ (rating st err) (returned err) _ v v) all
  Step-AllFit {s} (rate c st err e) all =
      stands s c _ (after_rate-Fits st err s.breaker _ (at_place s c _ all e)) all
  Step-AllFit {s} (move_on c st err e) all =
      moves s c st (moving st err) (returned err) (λ os v. v) e all

  Steps-AllFit : {s t : System} → Steps fl s t → AllFit s → AllFit t
  Steps-AllFit here all = all
  Steps-AllFit (more before st) all = Step-AllFit st (Steps-AllFit before all)

  -- In every interleaving a call that has returned has either run the next runner exactly once, and
  -- returns what that returned, or has not run it at all, and returns the error of an open circuit.
  pub Steps-Settled :
      {b : CircuitBreaker} {now : ℕ} {s : System} (c : ℕ) (err : Option Error)
      → Steps fl (made b now) s
      → (s.calls c).caller ≡ returned err
      → Settled (s.calls c).outcomes err
  Steps-Settled {s = s} c err steps e = at_place s c _ (Steps-AllFit steps (λ d. refl)) e
