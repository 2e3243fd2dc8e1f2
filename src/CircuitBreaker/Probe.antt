-- ===== src/CircuitBreaker/Probe.antt =====
-- The call that is let through when the wait of an open circuit is over.
use mathlib.Core.Path.{subst}
use goresilience.Prelude.{
  ℕ, ◌≤◌, ◌≡◌, refl, sym, ap, ◌∙◌, true, Option, none, some, arith, if◌then◌else◌,
}
use goresilience.Prelude.Int.{pos, ltb_ℤ}
use goresilience.Errors.{Error, is_nil}
use goresilience.Runtime.{Cell, Clock}
use goresilience.Metrics.{Measurement, Recorder, observe, Context, recorder_from_context}
use goresilience.Runner.{Func, Runner}
use goresilience.Float64.{Float64, CountLaws}
use goresilience.CircuitBreaker.Window.{reset, inc, total_requests, total_errors}
use goresilience.CircuitBreaker.Window.Shape.{reset-IsWellFormed}
use goresilience.CircuitBreaker.Window.Totals.{
  reset-IsCounted, inc-IsCounted, error_count, totals-inc, totals-reset,
}
use goresilience.CircuitBreaker.Transitions.{
  settle, verdict, verdict_in, IsSmall, moved_at, get-move_state, post_decide_state-verdict,
}
use goresilience.CircuitBreaker.{
  State, state_open, state_half_open, state_closed, same_state, CircuitBreaker, move_state,
  since_state_start, pre_decide, post_decide_state, execute_in, record_result, run,
}

module _ {W F : Type 0} (fl : Float64 F) (clock : Clock W) (this : Cell W CircuitBreaker) where
  -- The world in which the probe runs.
  abbrev pub at_probe : Context W → W → W
  at_probe ctx w = move_state fl clock this state_half_open (recorder_from_context ctx).0 w

  pre_decide-late :
      (s : State) (rec : Recorder W) (w : W)
      → s ≡ state_open
      → ltb_ℤ (this.get w).wait_duration_in_open_state (since_state_start fl clock this w) ≡ true
      → pre_decide fl clock this s rec w ≡ move_state fl clock this state_half_open rec w
  unfolding pre_decide
  pre_decide-late state_open rec w e h = rw h refl
  pre_decide-late state_half_open rec w e h = cc
  pre_decide-late state_closed rec w e h = cc

  execute_in-half_open :
      (s : State) (runner : Runner W) (ctx : Context W) (f : Func W) (w : W)
      → s ≡ state_half_open
      → execute_in fl clock this s runner ctx f w ≡ runner ctx f w
  unfolding execute_in
  execute_in-half_open state_half_open runner ctx f w e = refl
  execute_in-half_open state_open runner ctx f w e = cc
  execute_in-half_open state_closed runner ctx f w e = cc

-- The breaker in half open state, before anything is recorded.
abbrev pub probing : ℕ → CircuitBreaker → CircuitBreaker
probing now c = record c {
  state = state_half_open;
  state_started = now;
  recorder = reset c.recorder;
}

abbrev pub probed : Option Error → ℕ → CircuitBreaker → CircuitBreaker
probed err now c = record (probing now c) { recorder = inc err (reset c.recorder) }

pub probed-totals :
    (err : Option Error) (now : ℕ) (c : CircuitBreaker)
    → 2 ≤ c.recorder.window_size
    → (total_requests (probed err now c).recorder ≡ 1)
      × (total_errors (probed err now c).recorder ≡ error_count err)
probed-totals err now c two =
    let (total, errs) = totals-inc err (reset c.recorder) (reset-IsWellFormed c.recorder two) in
    let (none_total, none_errs) = totals-reset c.recorder in
    (total ∙ omega (arith, none_total), errs ∙ omega (arith, none_errs))

-- With one required success the one result decides.
probed-verdict :
    (p : ℕ) (err : Option Error) (now : ℕ) (c : CircuitBreaker)
    → 2 ≤ c.recorder.window_size
    → c.successful_required_on_half_open ≡ pos 1
    → verdict p (probed err now c) ≡ (if is_nil err then state_closed else state_open)
unfolding verdict verdict_in
probed-verdict p none now c two one =
    let (total, errs) = probed-totals none now c two in rw one (rw total (rw errs refl))
probed-verdict p (some e) now c two one =
    let (total, errs) = probed-totals (some e) now c two in rw one (rw total (rw errs refl))

IsSmall-probed :
    (p : ℕ) (err : Option Error) (now : ℕ) (c : CircuitBreaker)
    → 2 ≤ c.recorder.window_size
    → IsSmall p c
    → IsSmall p (probed err now c)
IsSmall-probed p err now c two small =
    let (total, errs) = probed-totals err now c two in
    record {
      percent = small.percent;
      in_range = small.in_range;
      required = small.required;
      minimum = small.minimum;
      few = omega (arith, total);
      counted = inc-IsCounted err (reset c.recorder) (reset-IsCounted c.recorder);
    }

settle-outcome :
    (err : Option Error) (now : ℕ) (c : CircuitBreaker)
    → c.state ≡ state_half_open
    → let s = if is_nil err then state_closed else state_open in
      settle s now c ≡ record c { state = s; state_started = now; recorder = reset c.recorder }
unfolding settle same_state
settle-outcome none now c e = rw e refl
settle-outcome (some x) now c e = rw e refl

module _ {W F : Type 0} (fl : Float64 F) (clock : Clock W) (this : Cell W CircuitBreaker)
    (runner : Runner W) (ctx : Context W) (f : Func W)
    (rec_keeps : (m : Measurement) (w : W)
      → this.get (observe (recorder_from_context ctx).0 m w) ≡ this.get w)
    (runner_keeps : (w : W) → this.get (runner ctx f w).1 ≡ this.get w) where
  abbrev rec : Recorder W
  rec = (recorder_from_context ctx).0

  abbrev probe_time : W → ℕ
  probe_time w = moved_at clock rec state_half_open w

  get-at_probe :
      (w : W)
      → (this.get w).state ≡ state_open
      → this.get (at_probe fl clock this ctx w) ≡ probing (probe_time w) (this.get w)
  unfolding settle same_state
  get-at_probe w e = get-move_state fl clock this rec rec_keeps state_half_open w ∙ rw e refl

  -- The world after the probe has been recorded.
  abbrev after_probe : W → W
  after_probe w =
      record_result fl clock this (runner ctx f (at_probe fl clock this ctx w)).0
        (runner ctx f (at_probe fl clock this ctx w)).1

  get-after_probe :
      (w : W)
      → (this.get w).state ≡ state_open
      → this.get (after_probe w)
        ≡ probed (runner ctx f (at_probe fl clock this ctx w)).0 (probe_time w) (this.get w)
  get-after_probe w e =
      this.get-put _ (runner ctx f (at_probe fl clock this ctx w)).1
      ∙ ap {B = CircuitBreaker}
          (λ c. record c {
            recorder = inc (runner ctx f (at_probe fl clock this ctx w)).0 c.recorder;
          })
          (runner_keeps (at_probe fl clock this ctx w) ∙ get-at_probe w e)

  run-late :
      (w : W)
      → (this.get w).state ≡ state_open
      → ltb_ℤ (this.get w).wait_duration_in_open_state (since_state_start fl clock this w) ≡ true
      → run fl clock this runner ctx f w ≡ (
        (runner ctx f (at_probe fl clock this ctx w)).0,
        post_decide_state fl clock this rec (after_probe w),
      )
  unfolding run post_decide_state
  run-late w e late = rw (pre_decide-late fl clock this (this.get w).state rec w e late) (
      rw
        (execute_in-half_open fl clock this (this.get (at_probe fl clock this ctx w)).state runner
          ctx f (at_probe fl clock this ctx w) (ap (λ c. c.state) (get-at_probe w e)))
        refl)

  -- With the counts that the probe leaves, one result decides.
  get-post_probe :
      CountLaws fl
      → (p : ℕ) (w : W) → IsSmall p (this.get w)
      → 2 ≤ (this.get w).recorder.window_size
      → (this.get w).successful_required_on_half_open ≡ pos 1
      → (this.get w).state ≡ state_open
      → let err = (runner ctx f (at_probe fl clock this ctx w)).0 in
        let s = if is_nil err then state_closed else state_open in
        this.get (post_decide_state fl clock this rec (after_probe w))
        ≡ settle s (moved_at clock rec s (after_probe w)) (this.get (after_probe w))
  get-post_probe laws p w small two one e =
      let err = (runner ctx f (at_probe fl clock this ctx w)).0 in
      let got = get-after_probe w e in
      let decided = post_decide_state-verdict fl clock this rec rec_keeps laws p (after_probe w) (
        subst (IsSmall p) (sym got) (IsSmall-probed p err (probe_time w) (this.get w) two small)) in
      let told : verdict p (this.get (after_probe w))
          ≡ (if is_nil err then state_closed else state_open) =
        ap (verdict p) got ∙ probed-verdict p err (probe_time w) (this.get w) two one in
      rw told at decided

  -- When the wait of an open circuit is over, the next call is a probe: the runner is called in half
  -- open state, its result is returned, and, where one success is required, that result alone closes
  -- the circuit or opens it again, with nothing left recorded. The window has two buckets or more, the
  -- percentage is at most 1000, the settings are exact, the counted requests are less than 2^40, and the
  -- runner and the recorder are taken not to change the breaker themselves.
  pub run-probes :
      CountLaws fl
      → (p : ℕ) (w : W) → IsSmall p (this.get w)
      → 2 ≤ (this.get w).recorder.window_size
      → (this.get w).successful_required_on_half_open ≡ pos 1
      → (this.get w).state ≡ state_open
      → ltb_ℤ (this.get w).wait_duration_in_open_state (since_state_start fl clock this w) ≡ true
      → let r = run fl clock this runner ctx f w in
        let c = this.get r.1 in
        ((this.get (at_probe fl clock this ctx w)).state ≡ state_half_open)
        × (r.0 ≡ (runner ctx f (at_probe fl clock this ctx w)).0)
        × (c.state ≡ (if is_nil r.0 then state_closed else state_open))
        × (total_requests c.recorder ≡ 0)
  run-probes laws p w small two one e late =
      let err = (runner ctx f (at_probe fl clock this ctx w)).0 in
      let got = get-after_probe w e in
      let half : (this.get (after_probe w)).state ≡ state_half_open = ap (λ c. c.state) got in
      let done =
        get-post_probe laws p w small two one e
        ∙ settle-outcome err _ (this.get (after_probe w)) half in
      rw (run-late w e late) (
        ap (λ c. c.state) (get-at_probe w e),
        refl,
        ap (λ c. c.state) done,
        ap (λ c. total_requests c.recorder) done
            ∙ (totals-reset (this.get (after_probe w)).recorder).0,
      )
