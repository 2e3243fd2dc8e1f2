-- ===== src/Tests/Retry.antt =====
-- The retry runner around a function that succeeds from some call on.
use goresilience.Prelude.{
  ℕ, zero, suc, ◌+◌, ◌≤◌, ◌<◌, ◌≡◌, refl, true, none, some, [], arith, if◌then◌else◌, ltb,
}
use goresilience.Prelude.Int.{pos}
use goresilience.Errors.{external}
use goresilience.Metrics.{recorder_from_context}
use goresilience.Runner.{Func, command}
use goresilience.Retry.{Config, Backoff, pause, attempt, wait_duration, run}
use goresilience.Retry.Attempts.{before, Fails, run-succeeds, run-exhausted}
use goresilience.Tests.World.{World, clock, background}
use goresilience.Tests.Fraction.{Fraction, fractions}

abbrev config : Config
config = record { wait_base = pos 5; disable_backoff = true; times = pos 2 }

abbrev plain : Backoff (World ℕ) Fraction
plain = record {
  exp2 = λ x. x;
  round_to_millisecond = λ d. d;
  random = λ w. (record { plus = 1; minus = 0; den = 2 }, w);
}

-- Fails in the calls below `good`; a call takes one tick.
abbrev fails_until : ℕ → Func (World ℕ)
fails_until good ctx w = (
  if ltb w.own good then some (external w.own) else none,
  record w { own = w.own + 1; time = w.time + 1 },
)

abbrev start : World ℕ
start = record { time = 0; own = 0; log = [] }

one-Fails :
    (j : ℕ) → j < 1 → Fails fractions clock plain config command background (fails_until 1) start j
unfolding before attempt command recorder_from_context
one-Fails zero h = (external 0, refl)
one-Fails (suc j) h = ground arith

-- The second attempt succeeds, after one pause.
run-succeeds_example :
    run fractions clock plain config command background (fails_until 1) start
    ≡ (none, record { time = 7; own = 2; log = [] })
unfolding before attempt pause wait_duration command recorder_from_context
run-succeeds_example =
    run-succeeds fractions clock plain config command background (fails_until 1) 2 1 start refl
      (omega arith) one-Fails refl

three-Fails :
    (j : ℕ) → j ≤ 2 → Fails fractions clock plain config command background (fails_until 9) start j
unfolding before attempt pause wait_duration command recorder_from_context
three-Fails zero h = (external 0, refl)
three-Fails (suc zero) h = (external 1, refl)
three-Fails (suc (suc zero)) h = (external 2, refl)
three-Fails (suc (suc (suc j))) h = ground arith

-- The last error comes back after a pause that nothing follows.
run-exhausted_example :
    run fractions clock plain config command background (fails_until 9) start
    ≡ (some (external 2), record { time = 18; own = 3; log = [] })
unfolding before attempt pause wait_duration command recorder_from_context
run-exhausted_example =
    run-exhausted fractions clock plain config command background (fails_until 9) 2 start refl
      three-Fails
