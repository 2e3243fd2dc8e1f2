-- ===== src/CircuitBreaker/Concurrent/Moves.antt =====
-- Two calls that both see that the wait of an open circuit is over.
use mathlib.Core.Path.{subst}
use goresilience.Prelude.{ℕ, ◌≡◌, ◌≢◌, refl, true, false, Option, ◌∷◌, arith, if◌then◌else◌, ◌==◌}
use goresilience.Prelude.Int.{pos, ltb_ℤ}
use goresilience.Errors.{Error}
use goresilience.Metrics.{circuitbreaker_state}
use goresilience.Float64.{Float64, CountLaws}
use goresilience.CircuitBreaker.Window.{BucketWindow, reset, total_requests, total_errors}
use goresilience.CircuitBreaker.{
  State, state_open, state_half_open, state_string, CircuitBreaker, move_state, same_state,
  since_state_start, error_rate, enough_requests,
}
use goresilience.CircuitBreaker.Concurrent.{
  Caller, outside, waiting, half_opening, executing, moving, System, own, clock, stand, after_pre,
  after_rate, move, Step, enter, look, half_open, Steps, here, more,
}

-- What `moveState` leaves when it changes the state.
abbrev pub shifted : State → System → System
shifted st s = record s {
  breaker = record s.breaker {
    state = st;
    state_started = s.now;
    recorder = reset s.breaker.recorder;
  };
  changes = circuitbreaker_state (state_string st) ∷ s.changes;
}

pub same_number : (y : ℕ) → (y == y) ≡ true
same_number y = ground arith

pub other_number : (x y : ℕ) → x ≢ y → (y == x) ≡ false
other_number x y h = ground arith

pub there : (y : ℕ) (at : Caller) (s : System) → ((stand y at s).calls y).caller ≡ at
there y at s = rw (same_number y) refl

module _ {F : Type 0} (fl : Float64 F) where
  pub move-shifted :
      (st : State) (s : System)
      → same_state s.breaker.state st ≡ false
      → move fl st s ≡ shifted st s
  unfolding move move_state
  move-shifted st s e = rw e refl

  pub enter_open :
      (s : System) (c : ℕ)
      → (s.calls c).caller ≡ outside
      → s.breaker.state ≡ state_open
      → Step fl s (stand c waiting s)
  unfolding after_pre
  enter_open s c e opened = subst (λ st. Step fl s (stand c (after_pre st) s)) opened (enter c e)

  abbrev pub Over : System → Type 0
  Over s = ltb_ℤ s.breaker.wait_duration_in_open_state (since_state_start fl clock own s) ≡ true

  pub look_over :
      (s : System) (c : ℕ)
      → (s.calls c).caller ≡ waiting
      → Over s
      → Step fl s (stand c half_opening s)
  look_over s c e over =
      subst (λ b. Step fl s (stand c (if b then half_opening else executing) s)) over (look c e)

  pub half_open_shifted :
      (s : System) (c : ℕ)
      → (s.calls c).caller ≡ half_opening
      → s.breaker.state ≡ state_open
      → Step fl s (stand c executing (shifted state_half_open s))
  unfolding same_state
  half_open_shifted s c e opened =
      subst (λ t. Step fl s (stand c executing t)) (move-shifted state_half_open s (rw opened refl))
        (half_open c e)

  pub one-IsEnough :
      CountLaws fl
      → (w : BucketWindow) → total_requests w ≡ 1
      → enough_requests fl clock own w (pos 1) ≡ true
  unfolding enough_requests
  one-IsEnough laws w sum =
      rw (enough_requests, sum) (laws.le_exact (pos 1) 1 (omega arith) (omega arith))

  pub one_error :
      CountLaws fl
      → (err : Option Error) (b : CircuitBreaker) → total_requests b.recorder ≡ 1
      → total_errors b.recorder ≡ 1
      → after_rate fl state_half_open err b ≡ moving state_open err
  unfolding error_rate after_rate
  one_error laws err b sum errs =
      rw (error_rate, sum, errs, laws.rate-le-zero 1 1 (omega arith) (omega arith)) refl

  pub Steps-append : {s t u : System} → Steps fl s t → Steps fl t u → Steps fl s u
  Steps-append before here = before
  Steps-append before (more after st) = more (Steps-append before after) st
