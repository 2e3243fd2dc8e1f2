-- ===== src/CircuitBreaker/Concurrent/Sound.antt =====
-- The window of the circuit breaker, with calls that overlap.
use goresilience.Prelude.{ℕ, suc, zero, ◌≤◌, ◌≡◌, inl, inr, some, Bool-cases, arith}
use goresilience.Prelude.Int.{pos}
use goresilience.Float64.{Float64}
use goresilience.CircuitBreaker.Window.{
  BucketWindow, sized, new_bucket_window, replace_oldest, slide, reset,
}
use goresilience.CircuitBreaker.Window.Shape.{
  reset-IsWellFormed, inc-IsWellFormed, replace_oldest-IsWellFormed, slide_total,
}
use goresilience.CircuitBreaker.Window.Totals.{
  replace_oldest-IsCounted, reset-IsCounted, inc-IsCounted,
}
use goresilience.CircuitBreaker.{
  State, Config, defaults, new_circuit_breaker, CircuitBreaker, same_state, move_state,
}
use goresilience.CircuitBreaker.Keeps.{IsSound}
use goresilience.CircuitBreaker.Concurrent.{
  System, made, move, Step, pass, tick, enter, look, half_open, choose, finish, record_result,
  evaluate, total, rate, move_on, Steps, here, more,
}

reset-IsSound :
    (b : CircuitBreaker) (st : State) (now : ℕ)
    → IsSound b
    → IsSound (record b { state = st; state_started = now; recorder = reset b.recorder })
reset-IsSound b st now v = record {
  shape = reset-IsWellFormed b.recorder v.shape.two;
  counted = reset-IsCounted b.recorder;
}

-- A tick that does not panic leaves the window with an empty current bucket.
slide-IsSound :
    (b : CircuitBreaker) (r : BucketWindow)
    → slide b.recorder ≡ some r
    → IsSound b
    → IsSound (record b { recorder = r })
slide-IsSound b r e v =
    let same : r ≡ replace_oldest b.recorder = cc (e, slide_total b.recorder v.shape) in
    rw same (record {
      shape = replace_oldest-IsWellFormed b.recorder v.shape;
      counted = replace_oldest-IsCounted b.recorder v.counted;
    })

-- A breaker with two buckets or more is sound when it is made.
new_circuit_breaker-IsSound :
    (config : Config) (now n : ℕ) (b : CircuitBreaker)
    → config.metrics_sliding_window_bucket_quantity ≡ pos n
    → 2 ≤ n
    → new_circuit_breaker config now ≡ some b
    → IsSound b
unfolding new_circuit_breaker defaults new_bucket_window
new_circuit_breaker-IsSound config now zero b q h e = absurd (omega (arith, h))
new_circuit_breaker-IsSound config now (suc n) b q h e =
    let same : b.recorder ≡ reset (sized (suc n)) = cc (rw q at e) in
    record {
      shape = rw same (reset-IsWellFormed (sized (suc n)) h);
      counted = rw same (reset-IsCounted (sized (suc n)));
    }

module _ {F : Type 0} (fl : Float64 F) where
  move-IsSound : (st : State) (s : System) → IsSound s.breaker → IsSound (move fl st s).breaker
  unfolding move move_state
  move-IsSound st s v = elim (Bool-cases (same_state s.breaker.state st)) [
    | inl e ↦ rw e v
    | inr e ↦ rw e (reset-IsSound s.breaker st s.now v)
  ]

  Step-IsSound : {s t : System} → Step fl s t → IsSound s.breaker → IsSound t.breaker
  Step-IsSound (pass d) v = v
  Step-IsSound {s} (tick b e) v = slide-IsSound s.breaker b e v
  Step-IsSound (enter c e) v = v
  Step-IsSound (look c e) v = v
  Step-IsSound {s} (half_open c e) v = move-IsSound _ s v
  Step-IsSound (choose c e) v = v
  Step-IsSound (finish c err e) v = v
  Step-IsSound {s} (record_result c err e) v = record {
    shape = inc-IsWellFormed err s.breaker.recorder v.shape;
    counted = inc-IsCounted err s.breaker.recorder v.counted;
  }
  Step-IsSound (evaluate c err e) v = v
  Step-IsSound (total c st err e) v = v
  Step-IsSound (rate c st err e) v = v
  Step-IsSound {s} (move_on c st err e) v = move-IsSound st s v

  Steps-IsSound : {s t : System} → Steps fl s t → IsSound s.breaker → IsSound t.breaker
  Steps-IsSound here v = v
  Steps-IsSound (more prior st) v = Step-IsSound st (Steps-IsSound prior v)

  -- In every interleaving of calls and ticks the window of a breaker that was made with two buckets or more is
  -- well formed and counts no more errors than requests, and the next tick does not panic.
  pub Steps-slides :
      {s : System} (config : Config) (now later n : ℕ) (b : CircuitBreaker)
      → config.metrics_sliding_window_bucket_quantity ≡ pos n
      → 2 ≤ n
      → new_circuit_breaker config now ≡ some b
      → Steps fl (made b later) s
      → IsSound s.breaker × ((r : BucketWindow) × (slide s.breaker.recorder ≡ some r))
  Steps-slides {s} config now later n b q h e steps =
      let v = Steps-IsSound steps (new_circuit_breaker-IsSound config now n b q h e) in
      (v, (replace_oldest s.breaker.recorder, slide_total s.breaker.recorder v.shape))
