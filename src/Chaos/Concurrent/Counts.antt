-- ===== src/Chaos/Concurrent/Counts.antt =====
-- What a call of the chaos runner returns, and what its counters say, while calls overlap.
use goresilience.Prelude.{
  ℕ, ◌+◌, ◌<◌, ◌≡◌, refl, ap, ◌⊎◌, inl, inr, Option, none, some, [], ◌∷◌, Bool-cases, arith,
}
use goresilience.Prelude.Families.{write, write-all, tally, tally-write, tally-const}
use goresilience.Prelude.Int.{pos, ltb_ℤ}
use goresilience.Errors.{Error, err_failure_injected}
use goresilience.Float64.{Float64}
use goresilience.Chaos.{Injector, FailureInjector}
use goresilience.Chaos.Concurrent.{
  Caller, outside, entered, sleeping, reckoning, comparing, running, leaving, returned, Call,
  System, not_called, made, attack_latency, attack_error, Step, set_latency, set_error_percent,
  enter, look, wake, reckon, compare, run, leave, Steps, here, more,
}

abbrev pub Answer : Call → Option Error → Type 0
Answer q err = (q.outcomes ≡ err ∷ []) ⊎ ((q.outcomes ≡ []) × (err ≡ some err_failure_injected))

abbrev pub Stands : Call → Caller → Type 0
Stands q (leaving err) = Answer q err
Stands q (returned err) = Answer q err
Stands q _ = q.outcomes ≡ []

abbrev pub has_returned : Call → ℕ
has_returned q = returns q.caller
  where
    returns : Caller → ℕ
    returns (returned err) = 1
    returns _ = 0

abbrev pub has_failed : Call → ℕ
has_failed q = fails q.caller
  where
    fails : Caller → ℕ
    fails (returned (some err)) = 1
    fails _ = 0

module _ {F : Type 0} (fl : Float64 F) (calls : ℕ) where
  pub record Inv (f : ℕ → Call) (k : FailureInjector) : Type 0 where
    pub stands : (c : ℕ) → Stands (f c) (f c).caller
    pub total : k.total ≡ tally has_returned calls f
    pub errs : k.errs ≡ tally has_failed calls f

  abbrev Holds : System → Type 0
  Holds s = Inv s.calls s.counters

  -- A call moves, and the counters with it.
  moves :
      (f : ℕ → Call) (k k' : FailureInjector) (c : ℕ) (q : Call)
      → c < calls
      → Stands q q.caller
      → k'.total + has_returned (f c) ≡ k.total + has_returned q
      → k'.errs + has_failed (f c) ≡ k.errs + has_failed q
      → Inv f k
      → Inv (write f c q) k'
  moves f k k' c q h new e g v = record {
    stands = write-all (λ r. Stands r r.caller) f c q new v.stands;
    total = omega (arith, tally-write has_returned calls f c q h, e, v.total);
    errs = omega (arith, tally-write has_failed calls f c q h, g, v.errs);
  }

  -- A call takes a place where it has run nothing.
  goes_on :
      (s : System) (c : ℕ) (at old : Caller)
      → c < calls
      → (s.calls c).caller ≡ old
      → (Stands (s.calls c) old → Stands (record (s.calls c) { caller = at }) at)
      → has_returned (record not_called { caller = old })
        ≡ has_returned (record not_called { caller = at })
      → has_failed (record not_called { caller = old })
        ≡ has_failed (record not_called { caller = at })
      → Holds s
      → Inv (write s.calls c (record (s.calls c) { caller = at })) s.counters
  goes_on s c at old h e keep r g v =
      let i : Stands (s.calls c) old = rw e at (v.stands c) in
      moves s.calls s.counters s.counters c _ h (keep i) (rw e (ap (λ n. s.counters.total + n) r))
        (rw e (ap (λ n. s.counters.errs + n) g)) v

  Step-Holds : {s t : System} → Step fl calls s t → Holds s → Holds t
  unfolding attack_latency attack_error
  Step-Holds (set_latency t) v = v
  Step-Holds (set_error_percent p l h) v = v
  Step-Holds {s} (enter c h e) v = goes_on s c entered outside h e (λ i. i) refl refl v
  Step-Holds {s} (look c h e) v = elim (Bool-cases (ltb_ℤ (pos 0) s.injector.latency)) [
    | inl b ↦ rw b (goes_on s c sleeping entered h e (λ i. i) refl refl v)
    | inr b ↦ rw b (goes_on s c reckoning entered h e (λ i. i) refl refl v)
  ]
  Step-Holds {s} (wake c h e) v = goes_on s c reckoning sleeping h e (λ i. i) refl refl v
  Step-Holds {s} (reckon c h e) v = goes_on s c (comparing _) reckoning h e (λ i. i) refl refl v
  Step-Holds {s} (compare c p h e) v = elim (Bool-cases (ltb_ℤ p s.injector.error_percent)) [
    | inl b ↦ rw b (
        goes_on s c (leaving (some err_failure_injected)) (comparing p) h e (λ i. inr (i, refl))
          refl refl v)
    | inr b ↦ rw b (goes_on s c running (comparing p) h e (λ i. i) refl refl v)
  ]
  Step-Holds {s} (run c err h e) v =
      let i : Stands (s.calls c) running = rw e at (v.stands c) in
      moves s.calls s.counters s.counters c _ h (inl (ap (◌∷◌ err) i)) (rw e refl) (rw e refl) v
  Step-Holds {s} (leave c none h e) v =
      let i : Stands (s.calls c) (leaving none) = rw e at (v.stands c) in
      moves s.calls s.counters _ c _ h i (rw e (omega arith)) (rw e refl) v
  Step-Holds {s} (leave c (some err) h e) v =
      let i : Stands (s.calls c) (leaving (some err)) = rw e at (v.stands c) in
      moves s.calls s.counters _ c _ h i (rw e (omega arith)) (rw e (omega arith)) v

  nothing : (weight : Call → ℕ) → weight not_called ≡ 0 → 0 ≡ tally weight calls (λ c. not_called)
  nothing weight e = grind (arith, tally-const weight not_called calls, e)

  Steps-Holds : {i : Injector} {s : System} → Steps fl calls (made i) s → Holds s
  Steps-Holds here = record {
    stands = λ c. refl;
    total = nothing has_returned refl;
    errs = nothing has_failed refl;
  }
  Steps-Holds (more prior st) = Step-Holds st (Steps-Holds prior)

  -- However calls overlap and the injector is changed, a call that has returned has either run the next runner
  -- exactly once, and returns what that returned, or returns the injected error without a run; and the
  -- counters are the number of the calls that have returned and of those that returned an error.
  pub Steps-counters :
      {i : Injector} {s : System} (c : ℕ) (err : Option Error)
      → Steps fl calls (made i) s
      → (s.calls c).caller ≡ returned err
      → Answer (s.calls c) err
        × (s.counters.total ≡ tally has_returned calls s.calls)
        × (s.counters.errs ≡ tally has_failed calls s.calls)
  Steps-counters {s = s} c err steps e =
      let v = Steps-Holds steps in
      let answer : Stands (s.calls c) (returned err) = rw e at (v.stands c) in
      (answer, v.total, v.errs)
