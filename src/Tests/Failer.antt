-- ===== src/Tests/Failer.antt =====
-- The chain of the retry runner and the failer, around a function that succeeds.
use goresilience.Prelude.{◌≡◌, refl, true, none, [], arith}
use goresilience.Prelude.Int.{ℤ, pos}
use goresilience.Errors.{external}
use goresilience.Metrics.{recorder_from_context}
use goresilience.Runner.{Func}
use goresilience.Retry
use goresilience.Retry.{Backoff}
use goresilience.Failer
use goresilience.Failer.Retried.{chain, chain-succeeds}
use goresilience.Tests.World.{World, clock, own_cell, background}
use goresilience.Tests.Fraction.{Fraction, fractions}

abbrev lib : Backoff (World ℤ) Fraction
lib = record {
  exp2 = λ x. x;
  round_to_millisecond = λ d. d;
  random = λ w. (record { plus = 1; minus = 0; den = 2 }, w);
}

abbrev config : Retry.Config
config = record { wait_base = pos 0; disable_backoff = true; times = pos 0 }

abbrev every_second : Failer.Config
every_second = record { fail_every_times = pos 2 }

abbrev fine : Func (World ℤ)
fine ctx w = (none, w)

-- The next call is the second one since the last failure.
abbrev second_next : World ℤ
second_next = record { time = 0; own = pos 1; log = [] }

chain-succeeds_example :
    (chain fractions clock lib config own_cell
      (external 0)
      every_second
      background
      fine
      second_next).0
    ≡ none
unfolding recorder_from_context
chain-succeeds_example =
    chain-succeeds fractions clock lib config own_cell (external 0) every_second background fine 2
      refl (omega arith) (λ d w. refl) (λ w. refl) (λ w. refl) (λ w. refl) (λ w. refl) 1 second_next
      refl
