-- ===== src/Retry.antt =====
-- retry/retry.go: the runner that tries again. `math.Exp2`, the rounding of a duration and the random
-- number are not the repository's, and are parameters.
use goresilience.Prelude.{
  ℕ, zero, suc, ◌+◌, ◌≡◌, Bool, true, false, Option, none, some, if◌then◌else◌, ◌==◌,
}
use goresilience.Prelude.Int.{ℤ, pos, negsuc, pos_part, leb_ℤ}
use goresilience.Errors.{Error}
use goresilience.Runtime.{Effect, Clock}
use goresilience.Metrics.{Recorder, retry, observe, Context, recorder_from_context}
use goresilience.Runner.{Func, Runner, Middleware, sanitize_runner}
use goresilience.Float64.{Float64}
pub mod Attempts
pub mod Waits

pub record Config : Type 0 where
  pub wait_base : ℤ
  pub disable_backoff : Bool
  pub times : ℤ

unfoldable pub defaults : Config → Config
defaults c = record c {
  wait_base = if leb_ℤ c.wait_base (pos 0) then pos 20_000_000 else c.wait_base;
  times = if leb_ℤ c.times (pos 0) then pos 3 else c.times;
}

-- What the backoff takes from the standard library.
pub record Backoff (W F : Type 0) : Type 0 where
  pub exp2 : F → F
  pub round_to_millisecond : ℤ → ℤ
  pub random : Effect W F

-- How often `i <= times` holds, from 0 on.
abbrev pub rounds : ℤ → ℕ
rounds (pos n) = suc n
rounds (negsuc n) = zero

module _ {W F : Type 0} (fl : Float64 F) (clock : Clock W) (lib : Backoff W F) (cfg : Config) where
  -- `waitDuration` after the attempt `i`.
  unfoldable pub wait_duration : ℕ → Effect W ℤ
  wait_duration i w =
      if cfg.disable_backoff
      then (cfg.wait_base, w)
      else let exp = lib.exp2 (fl.of_int (pos (i + 1))) in
        let rounded = lib.round_to_millisecond (fl.to_int (fl.mul (fl.of_int cfg.wait_base) exp)) in
        let r = lib.random w in (fl.to_int (fl.mul (fl.of_int rounded) r.0), r.1)

  -- `time.Sleep`, which returns at once for a duration that is not positive.
  unfoldable pub pause : ℕ → W → W
  unfolding wait_duration
  pause i w = let r = wait_duration i w in clock.sleep (pos_part r.0) r.1

  module _ (next : Runner W) (ctx : Context W) (f : Func W) where
    -- Only the retries are measured.
    unfoldable pub attempt : ℕ → Effect W (Option Error)
    attempt i w = next ctx f (if i == 0 then w else observe (recorder_from_context ctx).0 retry w)

    -- The loop from the attempt `i`, with `rounds` attempts to go and the last error `err`.
    loop : ℕ → ℕ → Option Error → Effect W (Option Error)
    unfolding attempt pause
    loop zero i err w = (err, w)
    loop (suc rounds) i err w = elim (attempt i w).0 [
      | none ↦ (none, (attempt i w).1)
      | some e ↦ loop rounds (suc i) (some e) (pause i (attempt i w).1)
    ]

  -- `for i := 0; i <= cfg.Times; i++`
  unfoldable pub run : Runner W → Runner W
  unfolding loop
  run next ctx f w = loop next ctx f (rounds cfg.times) 0 none w

-- The runner that `NewMiddleware` returns.
unfoldable pub middleware :
    {W F : Type 0} → Float64 F → Clock W → Backoff W F → Config → Middleware W
unfolding defaults run
middleware fl clock lib cfg next = run fl clock lib (defaults cfg) (sanitize_runner next)
