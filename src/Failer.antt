-- ===== src/Failer.antt =====
-- examples/extend/extend.go: the middleware of the example that shows how to write one, which fails
-- every so many calls.
use goresilience.Prelude.{Option, none, some, if◌then◌else◌}
use goresilience.Prelude.Int.{ℤ, pos, ◌+ℤ◌, eqb_ℤ}
use goresilience.Errors.{Error}
use goresilience.Runtime.{Cell, modify}
use goresilience.Runner.{Runner, Middleware, sanitize_runner}
pub mod Turns
pub mod Retried

pub record Config : Type 0 where
  pub fail_every_times : ℤ

-- The variable is `calledTimes`, and the error is what `fmt.Errorf` makes, always of the number 0.
module _ {W : Type 0} (called_times : Cell W ℤ) (failed : Error) (cfg : Config) where
  -- `calledTimes++`
  abbrev pub called : W → W
  called = modify called_times (λ n. n +ℤ pos 1)

  unfoldable pub run : Runner W → Runner W
  run next ctx f w =
      if eqb_ℤ (called_times.get (called w)) cfg.fail_every_times
      then (some failed, called_times.put (pos 0) (called w))
      else next ctx f (called w)

  unfoldable pub middleware : Middleware W
  unfolding run
  middleware next = run (sanitize_runner next)
