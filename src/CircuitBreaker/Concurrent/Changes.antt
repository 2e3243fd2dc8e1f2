-- ===== src/CircuitBreaker/Concurrent/Changes.antt =====
-- The measurements of state changes, with calls that overlap.
use mathlib.Core.Path.{subst}
use goresilience.Prelude.{ℕ, ◌≡◌, ◌≢◌, refl, inl, inr, true, false, List, [], ◌∷◌, Bool-cases}
use goresilience.Metrics.{Measurement, circuitbreaker_state}
use goresilience.Float64.{Float64}
use goresilience.CircuitBreaker.{
  State, state_open, state_half_open, state_closed, state_string, CircuitBreaker, move_state,
  same_state,
}
use goresilience.CircuitBreaker.Concurrent.{
  System, made, move, Step, pass, tick, enter, look, half_open, choose, finish, record_result,
  evaluate, total, rate, move_on, Steps, here, more,
}

-- Measurements of changes, each to another state, from the closed state to the given one.
pub data Walk : List Measurement → State → Type 0 where
  start : Walk [] state_closed
  go :
      {ms : List Measurement} {old st : State}
      → Walk ms old
      → old ≢ st
      → Walk (circuitbreaker_state (state_string st) ∷ ms) st

same_state_refl : (st : State) → same_state st st ≡ true
unfolding same_state
same_state_refl state_open = refl
same_state_refl state_half_open = refl
same_state_refl state_closed = refl

differs : (old st : State) → same_state old st ≡ false → old ≢ st
differs old st h e =
    let f : same_state st st ≡ false = subst (λ a. same_state a st ≡ false) e h in
    cc (same_state_refl st)

module _ {F : Type 0} (fl : Float64 F) where
  abbrev Told : System → Type 0
  Told s = Walk s.changes s.breaker.state

  move-Walk : (st : State) (s : System) → Told s → Told (move fl st s)
  unfolding move move_state
  move-Walk st s w = elim (Bool-cases (same_state s.breaker.state st)) [
    | inl e ↦ rw e w
    | inr e ↦ rw e (go w (differs s.breaker.state st e))
  ]

  Step-Walk : {s t : System} → Step fl s t → Told s → Told t
  Step-Walk (pass d) w = w
  Step-Walk (tick b e) w = w
  Step-Walk (enter c e) w = w
  Step-Walk (look c e) w = w
  Step-Walk {s} (half_open c e) w = move-Walk state_half_open s w
  Step-Walk (choose c e) w = w
  Step-Walk (finish c err e) w = w
  Step-Walk (record_result c err e) w = w
  Step-Walk (evaluate c err e) w = w
  Step-Walk (total c st err e) w = w
  Step-Walk (rate c st err e) w = w
  Step-Walk {s} (move_on c st err e) w = move-Walk st s w

  -- In every interleaving the state changes that were measured lead from the closed state to the
  -- present one: the last measurement names the present state, and no change is measured that is none,
  -- whatever the goroutines have read before others changed the state.
  pub Steps-Walk :
      {b : CircuitBreaker} {now : ℕ} {s : System}
      → b.state ≡ state_closed
      → Steps fl (made b now) s
      → Walk s.changes s.breaker.state
  Steps-Walk e here = rw e start
  Steps-Walk e (more before st) = Step-Walk st (Steps-Walk e before)
