-- ===== src/CircuitBreaker/Transitions.antt =====
-- When the circuit breaker changes its state, in counts instead of float64.
use goresilience.Prelude.{
  ℕ, ◌*◌, ◌^◌, ◌≤◌, ◌<◌, ◌≡◌, refl, sym, ap, ◌∙◌, inl, inr, Bool, true, false, not, ◌&&◌, arith,
  leb, ◌==◌, if◌then◌else◌, Bool-cases,
}
use goresilience.Prelude.Int.{pos, leb_ℤ}
use goresilience.Runtime.{Cell, Clock}
use goresilience.Metrics.{Measurement, Recorder, circuitbreaker_state, observe}
use goresilience.Float64.{Float64, CountLaws, IsExact}
use goresilience.CircuitBreaker.Window.{reset, total_requests, total_errors}
use goresilience.CircuitBreaker.Window.Totals.{IsCounted, total_errors-le}
use goresilience.CircuitBreaker.{
  State, state_open, state_half_open, state_closed, state_string, same_state, CircuitBreaker,
  move_state, post_decide, post_decide_state, error_rate, enough_requests,
}

-- The breaker after a move to `s` at the time `now`: the same if it is in `s` already, and else with
-- nothing recorded.
unfoldable pub settle : State → ℕ → CircuitBreaker → CircuitBreaker
settle s now c =
    if same_state c.state s
    then c
    else record c { state = s; state_started = now; recorder = reset c.recorder }

same_state_refl : (s : State) → same_state s s ≡ true
unfolding same_state
same_state_refl state_open = refl
same_state_refl state_half_open = refl
same_state_refl state_closed = refl

settle-same : (s : State) (now : ℕ) (c : CircuitBreaker) → c.state ≡ s → settle s now c ≡ c
unfolding settle
settle-same s now c e = rw (← e, same_state_refl c.state) refl

-- The state after an execution, from the counts of the window and a threshold of `p` percent, in exact
-- numbers and without float64: `p` percent of errors already open a closed circuit.
unfoldable pub verdict_in : State → ℕ → CircuitBreaker → State
verdict_in state_open p c = state_open
verdict_in state_half_open p c =
    if leb_ℤ c.successful_required_on_half_open (pos (total_requests c.recorder))
    then (if total_errors c.recorder == 0 && not (total_requests c.recorder == 0)
        then state_closed
        else state_open)
    else state_half_open
verdict_in state_closed p c =
    if leb_ℤ c.minimum_request_to_open (pos (total_requests c.recorder))
      && (leb (p * total_requests c.recorder) (100 * total_errors c.recorder)
          && not (total_requests c.recorder == 0))
    then state_open
    else state_closed

unfoldable pub verdict : ℕ → CircuitBreaker → State
unfolding verdict_in
verdict p c = verdict_in c.state p c

-- Numbers that float64 holds exactly, and a threshold that is a percentage.
pub record IsSmall (p : ℕ) (c : CircuitBreaker) : Type 0 where
  pub percent : c.error_percent_threshold_to_open ≡ pos p
  pub in_range : p ≤ 1000
  pub required : IsExact c.successful_required_on_half_open
  pub minimum : IsExact c.minimum_request_to_open
  pub few : total_requests c.recorder < 2 ^ 40
  pub counted : IsCounted c.recorder.window

-- The time at which a move to `s` starts, after its measurement.
abbrev pub moved_at : {W : Type 0} → Clock W → Recorder W → State → W → ℕ
moved_at clock rec s w = clock.now (observe rec (circuitbreaker_state (state_string s)) w)

module _ {W F : Type 0} (fl : Float64 F) (clock : Clock W) (this : Cell W CircuitBreaker)
    (rec : Recorder W)
    (keeps : (m : Measurement) (w : W) → this.get (observe rec m w) ≡ this.get w) where
  pub get-move_state :
      (s : State) (w : W)
      → this.get (move_state fl clock this s rec w) ≡ settle s (moved_at clock rec s w) (this.get w)
  unfolding move_state settle
  get-move_state s w = elim (Bool-cases (same_state (this.get w).state s)) [
    | inl e ↦ rw e refl
    | inr e ↦ rw e (
        this.get-put _ _
        ∙ ap {A = CircuitBreaker}
            (λ c. record c {
              state = s;
              state_started = moved_at clock rec s w;
              recorder = reset c.recorder;
            })
            (keeps (circuitbreaker_state (state_string s)) w))
  ]

  get-move_if :
      (b : Bool) (s stay : State) (w : W)
      → (this.get w).state ≡ stay
      → let t = if b then s else stay in
        this.get (if b then move_state fl clock this s rec w else w)
        ≡ settle t (moved_at clock rec t w) (this.get w)
  get-move_if true s stay w e = get-move_state s w
  get-move_if false s stay w e = sym (settle-same stay (moved_at clock rec stay w) (this.get w) e)

  post_decide-verdict :
      CountLaws fl
      → (s : State) (p : ℕ) (w : W) → (this.get w).state ≡ s
      → IsSmall p (this.get w)
      → let t = verdict_in s p (this.get w) in
        this.get (post_decide fl clock this s rec w)
        ≡ settle t (moved_at clock rec t w) (this.get w)
  unfolding post_decide verdict_in enough_requests error_rate
  post_decide-verdict laws state_open p w e small = sym (settle-same state_open _ (this.get w) e)
  post_decide-verdict laws state_half_open p w e small =
      let c = this.get w in
      let total = total_requests c.recorder in
      let few : total ≤ 2 ^ 53 = omega (arith, small.few) in
      let enough = laws.le_exact c.successful_required_on_half_open total small.required few in
      let clean =
        laws.rate-le-zero (total_errors c.recorder) total (total_errors-le c.recorder small.counted)
          few in
      rw enough (rw clean (get-move_if _ _ state_half_open w e))
  post_decide-verdict laws state_closed p w e small =
      let c = this.get w in
      let total = total_requests c.recorder in
      let few : total ≤ 2 ^ 53 = omega (arith, small.few) in
      let enough = laws.le_exact c.minimum_request_to_open total small.minimum few in
      let errs = total_errors c.recorder in
      let over : fl.le (fl.div (fl.of_int c.error_percent_threshold_to_open) (fl.of_int (pos 100)))
            (fl.div (fl.of_int (pos errs)) (fl.of_int (pos total)))
          ≡ (leb (p * total) (100 * errs) && not (total == 0)) =
        rw (small.percent) (
          laws.percent-le-rate p errs total small.in_range
            (total_errors-le c.recorder small.counted) small.few) in
      rw enough (rw over (get-move_if _ state_open state_closed w e))

  -- After an execution the float64 comparisons of the code decide as exact arithmetic on the counts of the
  -- window does: a closed circuit opens if there are the required requests, at least one, and errors are AT
  -- LEAST `p` percent of them (the documentation of `New` says more than `p` percent); a half open one closes
  -- if there are the required requests, at least one, and no errors, opens if there are the required ones
  -- otherwise, and stays half open below them; an open one stays. A change of state starts at the time of
  -- the move with an empty window. The percentage is at most 1000, the settings are exact, the counted
  -- requests are less than 2^40, the laws of IEEE 754 hold, and the recorder does not change the breaker.
  pub post_decide_state-verdict :
      CountLaws fl
      → (p : ℕ) (w : W) → IsSmall p (this.get w)
      → let s = verdict p (this.get w) in
        this.get (post_decide_state fl clock this rec w)
        ≡ settle s (moved_at clock rec s w) (this.get w)
  unfolding post_decide_state verdict
  post_decide_state-verdict laws p w small =
      post_decide-verdict laws (this.get w).state p w refl small
