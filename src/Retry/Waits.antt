-- ===== src/Retry/Waits.antt =====
-- How long a call that fails takes.
use goresilience.Prelude.{
  ℕ, zero, suc, ◌+◌, ◌*◌, ◌≤◌, ◌≡◌, Bool, false, true, arith, if◌then◌else◌, ◌==◌,
}
use goresilience.Prelude.Int.{pos}
use goresilience.Runtime.{Clock}
use goresilience.Metrics.{retry, Context, Measurement, observe, recorder_from_context}
use goresilience.Runner.{Func, Runner}
use goresilience.Float64.{Float64}
use goresilience.Retry.{Config, Backoff, wait_duration, pause, attempt, run}
use goresilience.Retry.Attempts.{before, Fails, run-exhausted}

module _ {W F : Type 0} (fl : Float64 F) (clock : Clock W) (lib : Backoff W F) (cfg : Config)
    (next : Runner W) (ctx : Context W) (f : Func W) where
  abbrev now : W → ℕ
  now = clock.now

  later_if : (b : Bool) (v u : W) → now v ≤ now u → now v ≤ now (if b then v else u)
  later_if true v u h = omega arith
  later_if false v u h = h

  attempt_later :
      ((v : W) → now v ≤ now (next ctx f v).1)
      → ((m : Measurement) (v : W) → now v ≤ now (observe (recorder_from_context ctx).0 m v))
      → (i : ℕ) (w : W) → now w ≤ now (attempt fl clock lib cfg next ctx f i w).1
  unfolding attempt
  attempt_later later measured i w =
      let counted = observe (recorder_from_context ctx).0 retry w in
      let started = if i == 0 then w else counted in
      omega (arith, later_if (i == 0) w counted (measured retry w), later started)

  pause_lasts :
      (b i : ℕ) (w : W)
      → cfg.disable_backoff ≡ true
      → cfg.wait_base ≡ pos b
      → now w + b ≤ now (pause fl clock lib cfg i w)
  unfolding pause wait_duration
  pause_lasts b i w off base = rw (off, pause) (rw base (clock.sleep_lasts b w))

  before-lasts :
      ((v : W) → now v ≤ now (next ctx f v).1)
      → ((m : Measurement) (v : W) → now v ≤ now (observe (recorder_from_context ctx).0 m v))
      → (b k : ℕ) (w : W) → cfg.disable_backoff ≡ true
      → cfg.wait_base ≡ pos b
      → now w + k * b ≤ now (before fl clock lib cfg next ctx f w k)
  unfolding before
  before-lasts later measured b zero w off base = omega arith
  before-lasts later measured b (suc k) w off base =
      let v = before fl clock lib cfg next ctx f w k in
      grind (
        arith,
        before-lasts later measured b k w off base,
        attempt_later later measured k v,
        pause_lasts b k (attempt fl clock lib cfg next ctx f k v).1 off base,
      )

  -- Without backoff a call of which all attempts fail lasts at least a base wait for every attempt,
  -- the last one included, if the runner and the recorder do not turn the clock back.
  pub run-exhausted_lasts :
      ((v : W) → now v ≤ now (next ctx f v).1)
      → ((m : Measurement) (v : W) → now v ≤ now (observe (recorder_from_context ctx).0 m v))
      → (n b : ℕ) (w : W) → cfg.times ≡ pos n
      → cfg.disable_backoff ≡ true
      → cfg.wait_base ≡ pos b
      → ((j : ℕ) → j ≤ n → Fails fl clock lib cfg next ctx f w j)
      → now w + (n + 1) * b ≤ now (run fl clock lib cfg next ctx f w).1
  run-exhausted_lasts later measured n b w times off base fails =
      let lasts = before-lasts later measured b (suc n) w off base in
      rw (run-exhausted fl clock lib cfg next ctx f n w times fails) (omega (arith, lasts))
