-- ===== src/Chaos/Ratio.antt =====
-- The share of injected errors over many calls (chaos/inject.go).
use goresilience.Prelude.{
  ℕ, zero, suc, ◌+◌, ◌*◌, ◌^◌, ◌≤◌, ◌<◌, ◌≡◌, refl, ap, ◌∙◌, Bool, true, false, Option, none, some,
  arith, if◌then◌else◌, Bool-cases, inl, inr,
}
use goresilience.Prelude.Int.{pos, ltb_ℤ}
use goresilience.Errors.{Error, err_failure_injected, is_nil}
use goresilience.Runtime.{Cell, Clock}
use goresilience.Metrics.{
  Measurement, Recorder, chaos_injected_failure, observe, Context, recorder_from_context,
}
use goresilience.Runner.{Func, Runner}
use goresilience.Float64.{Float64}
use goresilience.Chaos.{
  Injector, FailureInjector, measure, inject_latency, current_err_perc, inject_error, run,
}

-- What is used of the percentage in float64: for less than 2^40 requests `100 * e / t` is a whole
-- number `p` or at least 2^-40 away from it, and is not rounded past it.
pub record PercentLaws {F : Type 0} (fl : Float64 F) : Type 0 where
  pub below :
      (p e t : ℕ)
      → p ≤ 100
      → e ≤ t
      → 0 < t
      → t < 2 ^ 40
      → ltb_ℤ (current_err_perc fl e t) (pos p) ≡ true
      → 100 * e ≤ p * t
  pub not_below :
      (p e t : ℕ)
      → p ≤ 100
      → e ≤ t
      → 0 < t
      → t < 2 ^ 40
      → ltb_ℤ (current_err_perc fl e t) (pos p) ≡ false
      → p * t ≤ 100 * e

-- After every call the injected errors are within one error of `p` percent.
pub record IsNear (p : ℕ) (c : FailureInjector) : Type 0 where
  pub fewer : c.errs ≤ c.total
  pub lower : p * c.total ≤ 100 * c.errs + 100
  pub upper : 100 * c.errs ≤ p * c.total + 100

IsNear-hit :
    (p e t : ℕ)
    → p ≤ 100
    → e ≤ t
    → (0 < t → 100 * e ≤ p * t)
    → p * t ≤ 100 * e + 100
    → IsNear p (record { total = t + 1; errs = e + 1 })
IsNear-hit p e zero h le hit lower = record {
  fewer = omega arith;
  lower = omega arith;
  upper = omega arith;
}
IsNear-hit p e (suc t) h le hit lower =
    let over = hit (omega arith) in
    record { fewer = omega arith; lower = omega arith; upper = omega arith }

IsNear-miss :
    (p e t : ℕ)
    → p ≤ 100
    → e ≤ t
    → (0 < t → p * t ≤ 100 * e)
    → 100 * e ≤ p * t + 100
    → IsNear p (record { total = t + 1; errs = e })
IsNear-miss p e zero h le miss upper = record {
  fewer = omega arith;
  lower = omega arith;
  upper = omega arith;
}
IsNear-miss p e (suc t) h le miss upper =
    let over = miss (omega arith) in
    record { fewer = omega arith; lower = omega arith; upper = omega arith }

module _ {W F : Type 0} (fl : Float64 F) (clock : Clock W) (injector : Cell W Injector)
    (this : Cell W FailureInjector) (runner : Runner W) (ctx : Context W) (f : Func W) where
  abbrev rec : Recorder W
  rec = (recorder_from_context ctx).0

  -- Neither the counters nor the injector differ.
  abbrev pub Agree : W → W → Type 0
  Agree v w = (this.get v ≡ this.get w) × (injector.get v ≡ injector.get w)

  -- The runner succeeds, nothing else writes the counters, and nobody changes the injector.
  pub record IsSteady : Type 0 where
    pub succeeds : (w : W) → (runner ctx f w).0 ≡ none
    pub runner_keeps : (w : W) → Agree (runner ctx f w).1 w
    pub recorder_keeps : (m : Measurement) (w : W) → Agree (observe rec m w) w
    pub sleep_keeps : (d : ℕ) (w : W) → Agree (clock.sleep d w) w
    pub apart : (c : FailureInjector) (w : W) → injector.get (this.put c w) ≡ injector.get w

  pub calls : ℕ → W → W
  calls zero w = w
  calls (suc n) w = (run fl clock injector this runner ctx f (calls n w)).1

  trans_Agree : {u v w : W} → Agree u v → Agree v w → Agree u w
  trans_Agree (a, b) (c, d) = (a ∙ c, b ∙ d)

  inject_latency-Agree : IsSteady → (w : W) → Agree (inject_latency fl clock injector this rec w) w
  unfolding inject_latency
  inject_latency-Agree s w = elim (Bool-cases (ltb_ℤ (pos 0) (injector.get w).latency)) [
    | inl e ↦ rw e (trans_Agree (s.sleep_keeps _ _) (s.recorder_keeps _ w))
    | inr e ↦ rw e (refl, refl)
  ]

  abbrev hits : ℕ → W → Bool
  hits p w = ltb_ℤ (current_err_perc fl (this.get w).errs (this.get w).total) (pos p)

  inject_hit :
      {p : ℕ} (w : W)
      → (injector.get w).error_percent ≡ pos p
      → hits p w ≡ true
      → inject_error fl clock injector this runner ctx f w
        ≡ (some err_failure_injected, observe rec (chaos_injected_failure "error") w)
  unfolding inject_error
  inject_hit w percent e = rw percent (rw e refl)

  inject_miss :
      {p : ℕ} (w : W)
      → (injector.get w).error_percent ≡ pos p
      → hits p w ≡ false
      → inject_error fl clock injector this runner ctx f w ≡ runner ctx f w
  unfolding inject_error
  inject_miss w percent e = rw percent (rw e refl)

  counted : Option Error → FailureInjector → FailureInjector
  counted err c = record { total = c.total + 1; errs = if is_nil err then c.errs else c.errs + 1 }

  -- What is true between two calls.
  pub record IsAt (p : ℕ) (w : W) : Type 0 where
    pub percent : (injector.get w).error_percent ≡ pos p
    pub near : IsNear p (this.get w)

  -- The deferred function after an outcome.
  measure-IsAt :
      (p : ℕ) (err : Option Error) (v w : W)
      → IsSteady
      → Agree v w
      → (injector.get w).error_percent ≡ pos p
      → IsNear p (counted err (this.get w))
      → let r = measure fl clock injector this err v in
        ((this.get r).total ≡ (this.get w).total + 1) × IsAt p r
  unfolding measure counted
  measure-IsAt p err v w s (same, kept) percent near =
      let c = counted err (this.get v) in
      let got = this.get-put c v ∙ ap (counted err) same in
      (
        ap (λ (x : FailureInjector). x.total) got,
        record {
          percent = ap (λ (i : Injector). i.error_percent) (s.apart c v ∙ kept) ∙ percent;
          near = rw got near;
        },
      )

  -- The error attack and the count of its outcome.
  inject_error-IsAt :
      {p : ℕ}
      → IsSteady
      → PercentLaws fl
      → p ≤ 100
      → (w : W) → (this.get w).total < 2 ^ 40
      → IsAt p w
      → let r = inject_error fl clock injector this runner ctx f w in
        let v = measure fl clock injector this r.0 r.1 in
        ((this.get v).total ≡ (this.get w).total + 1) × IsAt p v
  unfolding counted
  inject_error-IsAt {p} s laws small w few at =
      let c = this.get w in
      elim (Bool-cases (hits p w)) [
        | inl e ↦ rw (inject_hit w at.percent e) (
            measure-IsAt p (some err_failure_injected) _ w s (s.recorder_keeps _ w) at.percent (
              IsNear-hit p c.errs c.total small at.near.fewer
                (λ h. laws.below p c.errs c.total small at.near.fewer h few e) at.near.lower))
        | inr e ↦
            rw (inject_miss w at.percent e, s.succeeds w)
              (measure-IsAt p none _ w s (s.runner_keeps w) at.percent (
                IsNear-miss p c.errs c.total small at.near.fewer
                  (λ h. laws.not_below p c.errs c.total small at.near.fewer h few e) at.near.upper))
      ]

  run-IsAt :
      {p : ℕ}
      → IsSteady
      → PercentLaws fl
      → p ≤ 100
      → (w : W) → (this.get w).total < 2 ^ 40
      → IsAt p w
      → let v = (run fl clock injector this runner ctx f w).1 in
        ((this.get v).total ≡ (this.get w).total + 1) × IsAt p v
  unfolding run
  run-IsAt {p} s laws small w few at =
      let (same, kept) = inject_latency-Agree s w in
      let v = inject_latency fl clock injector this rec w in
      let start : IsAt p v = record { percent = rw kept at.percent; near = rw same at.near } in
      let (t, after) = inject_error-IsAt s laws small v (rw same few) start in
      (t ∙ ap (λ (x : FailureInjector). x.total + 1) same, after)

  calls-IsAt :
      {p : ℕ}
      → IsSteady
      → PercentLaws fl
      → p ≤ 100
      → (n : ℕ) (w : W) → n ≤ 2 ^ 40
      → this.get w ≡ record { total = 0; errs = 0 }
      → (injector.get w).error_percent ≡ pos p
      → ((this.get (calls n w)).total ≡ n) × IsAt p (calls n w)
  unfolding calls
  calls-IsAt s laws small zero w few start percent =
      let none_yet : IsNear _ (record { total = 0; errs = 0 }) = record {
        fewer = omega arith;
        lower = omega arith;
        upper = omega arith;
      } in
      (
        ap (λ (x : FailureInjector). x.total) start,
        record { percent = percent; near = rw start none_yet },
      )
  calls-IsAt s laws small (suc n) w few start percent =
      let (total, at) = calls-IsAt s laws small n w (omega (arith, few)) start percent in
      let (more, after) = run-IsAt s laws small (calls n w) (omega (arith, total, few)) at in
      (more ∙ omega (arith, total), after)

  -- However the float64 quotients round, after any number `n` of calls, at most 2^40 and one after
  -- another, of a chaos runner with new counters its counted errors are within one error of `p` percent of
  -- `n`, if `p` is the percentage of the injector, at most 100, the runner behind it always succeeds,
  -- nothing else writes its counters, and nobody changes the injector.
  pub calls-IsNear :
      {p : ℕ}
      → IsSteady
      → PercentLaws fl
      → p ≤ 100
      → (n : ℕ) (w : W) → n ≤ 2 ^ 40
      → this.get w ≡ record { total = 0; errs = 0 }
      → (injector.get w).error_percent ≡ pos p
      → ((this.get (calls n w)).total ≡ n) × IsNear p (this.get (calls n w))
  calls-IsNear {p} s laws small n w few start percent =
      let (total, at) = calls-IsAt s laws small n w few start percent in (total, at.near)
