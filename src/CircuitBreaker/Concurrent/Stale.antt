-- ===== src/CircuitBreaker/Concurrent/Stale.antt =====
-- Two calls that both see that the wait of an open circuit is over.
use mathlib.Core.Path.{subst}
use goresilience.Prelude.{ap, ◌∙◌, ℕ, ◌≤◌, ◌≡◌, ◌≢◌, refl, sym, true, some, ◌∷◌, if◌then◌else◌}
use goresilience.Prelude.Int.{pos}
use goresilience.Prelude.Families.{write}
use goresilience.Errors.{Error}
use goresilience.Metrics.{circuitbreaker_state}
use goresilience.Float64.{Float64, CountLaws}
use goresilience.CircuitBreaker.Window.{inc}
use goresilience.CircuitBreaker.Probe.{probed-totals}
use goresilience.CircuitBreaker.{
  state_open, state_half_open, state_string, same_state, since_state_start, enough_requests,
}
use goresilience.CircuitBreaker.Concurrent.Moves.{
  shifted, same_number, other_number, there, move-shifted, enter_open, Over, look_over,
  half_open_shifted, one-IsEnough, one_error, Steps-append,
}
use goresilience.CircuitBreaker.Concurrent.{
  outside, waiting, half_opening, executing, running, executed, recorded, totalling, rating, moving,
  returned, Caller, Call, System, own, clock, stand, after_execute, after_post, after_rate,
  required, Step, choose, finish, record_result, evaluate, total, rate, move_on, Steps, here, more,
}

module _ {F : Type 0} (fl : Float64 F) where
  -- A probe that fails, in a system that is open.
  module _ (s : System) (y : ℕ) (err : Error) where
    abbrev probe_runs : System
    probe_runs = stand y running (stand y executing (shifted state_half_open s))

    abbrev probe_failed : System
    probe_failed = record probe_runs {
      calls = write probe_runs.calls y (record {
        caller = executed (some err);
        outcomes = some err ∷ (probe_runs.calls y).outcomes;
      });
    }

    abbrev probe_recorded : System
    probe_recorded = stand y (recorded (some err)) (record probe_failed {
      breaker = record probe_failed.breaker {
        recorder = inc (some err) probe_failed.breaker.recorder;
      };
    })

    abbrev probe_judged : System
    probe_judged = stand y (moving state_open (some err)) (
        stand y (rating state_half_open (some err))
          (stand y (totalling state_half_open (some err)) probe_recorded))

    abbrev open_again : System
    open_again = stand y (returned (some err)) (shifted state_open probe_judged)

    others : (x : ℕ) → x ≢ y → open_again.calls x ≡ s.calls x
    others x h = rw (other_number x y h) refl

    -- The result of the probe, recorded in an empty window, is all that is counted.
    judged :
        CountLaws fl
        → 2 ≤ s.breaker.recorder.window_size
        → s.breaker.successful_required_on_half_open ≡ pos 1
        → (enough_requests fl clock own probe_recorded.breaker.recorder
              (required state_half_open probe_recorded.breaker)
            ≡ true)
          × (after_rate fl state_half_open (some err) probe_recorded.breaker
              ≡ moving state_open (some err))
    unfolding required
    judged laws two one =
        let (sum, errs) = probed-totals (some err) s.now s.breaker two in
        (
          rw one (one-IsEnough fl laws _ sum),
          one_error fl laws (some err) probe_recorded.breaker sum errs,
        )

    opens_again :
        CountLaws fl
        → 2 ≤ s.breaker.recorder.window_size
        → s.breaker.successful_required_on_half_open ≡ pos 1
        → s.breaker.state ≡ state_open
        → (s.calls y).caller ≡ half_opening
        → Steps fl s open_again
    unfolding after_execute after_post same_state
    opens_again laws two one o e =
        let (enough, bad) = judged laws two one in
        let a = shifted state_half_open s in
        let b = stand y executing a in
        let d = stand y (totalling state_half_open (some err)) probe_recorded in
        let g = stand y (rating state_half_open (some err)) d in
        more
          (more
            (more
              (more
                (more
                  (more
                    (more (more here (half_open_shifted fl s y e o))
                      (choose y (there y executing a)))
                    (finish y (some err) (there y running b)))
                  (record_result y (some err) (rw (same_number y) refl)))
                (evaluate y (some err) (rw (same_number y) refl)))
              (subst
                (λ t. Step fl d (
                  stand y (if t then rating state_half_open (some err) else returned (some err)) d))
                enough
                (total y state_half_open (some err)
                  (there y (totalling state_half_open (some err)) probe_recorded))))
            (subst (λ p. Step fl g (stand y p g)) bad
              (rate y state_half_open (some err) (there y (rating state_half_open (some err)) d))))
          (subst (λ t. Step fl probe_judged (stand y (returned (some err)) t))
            (move-shifted fl state_open probe_judged refl)
            (move_on y state_open (some err) (there y (moving state_open (some err)) g)))

  -- A call that stands somewhere keeps its outcomes.
  stand-same :
      (x : ℕ) (c : Caller) (s : System) → (stand x c s).calls x ≡ record (s.calls x) { caller = c }
  stand-same x c s = rw (same_number x) refl

  -- Two calls come one after the other to an open circuit whose wait is over, and stop at the same place.
  abbrev both_see : System → ℕ → ℕ → System
  both_see s x y = stand y half_opening (stand y waiting (stand x half_opening (stand x waiting s)))

  Steps-both_see :
      (s : System) (x y : ℕ)
      → x ≢ y
      → s.breaker.state ≡ state_open
      → Over fl s
      → (s.calls x).caller ≡ outside
      → (s.calls y).caller ≡ outside
      → Steps fl s (both_see s x y)
  unfolding since_state_start
  Steps-both_see s x y h o over e f =
      let a = stand x waiting s in
      let b = stand x half_opening a in
      let d = stand y waiting b in
      let apart = other_number y x (λ g. h (sym g)) in
      more
        (more (more (more here (enter_open fl s x e o)) (look_over fl a x (there x waiting s) over))
          (enter_open fl b y (rw apart f) o))
        (look_over fl d y (there y waiting b) over)

  -- With one required success, and a window of two buckets or more, the wait of an open circuit can be cut
  -- short altogether: from any system that is open and in which the wait is over and two calls have not
  -- begun, there is an interleaving in which one of them has moved the circuit to half open state, has run
  -- the next runner once, has got the error, and has moved the circuit to open state again, and then, in
  -- the next step and at the time at which this wait began, the other one, which has run nothing, moves
  -- it to half open state.
  pub cut_short :
      CountLaws fl
      → (s : System) (x y : ℕ) (err : Error) → 2 ≤ s.breaker.recorder.window_size
      → s.breaker.successful_required_on_half_open ≡ pos 1
      → s.breaker.state ≡ state_open
      → Over fl s
      → x ≢ y
      → (s.calls x).caller ≡ outside
      → (s.calls y).caller ≡ outside
      → (u : System) × (t : System) × Steps fl s u
        × Step fl u t
        × (u.breaker.state ≡ state_open)
        × (u.breaker.state_started ≡ u.now)
        × (u.changes
            ≡ circuitbreaker_state (state_string state_open)
              ∷ circuitbreaker_state (state_string state_half_open)
              ∷ s.changes)
        × (u.calls y
            ≡ record { caller = returned (some err); outcomes = some err ∷ (s.calls y).outcomes })
        × (u.calls x ≡ record { caller = half_opening; outcomes = (s.calls x).outcomes })
        × (t.calls x ≡ record { caller = executing; outcomes = (s.calls x).outcomes })
        × (t.breaker.state ≡ state_half_open)
        × (t.changes ≡ circuitbreaker_state (state_string state_half_open) ∷ u.changes)
        × (t.now ≡ u.now)
  cut_short laws s x y err two one o over h e f =
      let seen = both_see s x y in
      let u = open_again seen y err in
      let apart = other_number x y h in
      let waits : u.calls x ≡ record { caller = half_opening; outcomes = (s.calls x).outcomes } =
        rw apart (rw (same_number x) refl) in
      let ran : u.calls y
          ≡ record { caller = returned (some err); outcomes = some err ∷ (s.calls y).outcomes } =
        rw (same_number y) (rw (other_number y x (λ g. h (sym g))) refl) in
      (
        u,
        stand x executing (shifted state_half_open u),
        Steps-append fl (Steps-both_see s x y h o over e f) (
            opens_again seen y err laws two one o
              (there y half_opening (stand y waiting (stand x half_opening (stand x waiting s))))),
        half_open_shifted fl u x (ap (λ q. q.caller) waits) refl,
        refl,
        refl,
        refl,
        ran,
        waits,
        stand-same x executing (shifted state_half_open u)
            ∙ ap {A = Call} (λ q. record q { caller = executing }) waits,
        refl,
        refl,
        refl,
      )
