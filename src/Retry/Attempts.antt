-- ===== src/Retry/Attempts.antt =====
-- Which attempts the retry runner of retry/retry.go makes.
use goresilience.Prelude.{
  ℕ, zero, suc, ◌+◌, ◌≤◌, ◌<◌, ◌≡◌, refl, sym, ap, ◌∙◌, ◌-◌, Option, none, some, arith,
}
use goresilience.Prelude.Int.{pos}
use goresilience.Errors.{Error}
use goresilience.Runtime.{Clock}
use goresilience.Metrics.{Context}
use goresilience.Runner.{Func, Runner}
use goresilience.Float64.{Float64}
use goresilience.Retry.{Config, Backoff, rounds, pause, attempt, loop, run}

module _ {W F : Type 0} (fl : Float64 F) (clock : Clock W) (lib : Backoff W F) (cfg : Config)
    (next : Runner W) (ctx : Context W) (f : Func W) where
  -- The world before the attempt `k`, if all before it failed.
  unfoldable pub before : W → ℕ → W
  before w zero = w
  before w (suc k) = pause fl clock lib cfg k (attempt fl clock lib cfg next ctx f k (before w k)).1

  abbrev pub Fails : W → ℕ → Type 0
  Fails w k = (e : Error) × ((attempt fl clock lib cfg next ctx f k (before w k)).0 ≡ some e)

  abbrev looping : ℕ → ℕ → Option Error → W → Option Error × W
  looping = loop fl clock lib cfg next ctx f

  -- An attempt that fails with more to go is followed by a pause and the next attempt.
  looping-fails :
      (rounds i : ℕ) (err : Option Error) (w : W) (e : Error)
      → (attempt fl clock lib cfg next ctx f i w).0 ≡ some e
      → looping (suc rounds) i err w
        ≡ looping rounds
            (suc i)
            (some e)
            (pause fl clock lib cfg i (attempt fl clock lib cfg next ctx f i w).1)
  unfolding loop
  looping-fails rounds i err w e h = rw (h, loop) refl

  looping-succeeds :
      (rounds i : ℕ) (err : Option Error) (w : W)
      → (attempt fl clock lib cfg next ctx f i w).0 ≡ none
      → looping (suc rounds) i err w ≡ (none, (attempt fl clock lib cfg next ctx f i w).1)
  unfolding loop
  looping-succeeds rounds i err w h = rw (h, loop) refl

  skip_failures :
      (k rest total : ℕ) (w : W)
      → total ≡ k + rest
      → ((j : ℕ) → j < k → Fails w j)
      → (err : Option Error) × (looping total 0 none w ≡ looping rest k err (before w k))
  unfolding before
  skip_failures zero rest total w e fails = (none, ap (λ n. looping n 0 none w) (omega (arith, e)))
  skip_failures (suc k) rest total w e fails =
      let (err, same) =
        skip_failures k (suc rest) total w (omega (arith, e)) (λ j h. fails j (omega (arith, h))) in
      let (x, failed) = fails k (omega arith) in
      (some x, same ∙ looping-fails rest k err (before w k) x failed)

  run-looping :
      (n : ℕ) (w : W)
      → cfg.times ≡ pos n
      → run fl clock lib cfg next ctx f w ≡ looping (suc n) 0 none w
  unfolding run
  run-looping n w times = ap (λ t. looping (rounds t) 0 none w) times

  -- If the attempts before `k` fail and the attempt `k` succeeds, and `k` is at most `Times`, the
  -- call succeeds with the world that this attempt leaves: no later attempt and no pause follows.
  pub run-succeeds :
      (n k : ℕ) (w : W)
      → cfg.times ≡ pos n
      → k ≤ n
      → ((j : ℕ) → j < k → Fails w j)
      → (attempt fl clock lib cfg next ctx f k (before w k)).0 ≡ none
      → run fl clock lib cfg next ctx f w
        ≡ (none, (attempt fl clock lib cfg next ctx f k (before w k)).1)
  run-succeeds n k w times h fails good =
      let (err, same) = skip_failures k (suc (n - k)) (suc n) w (omega arith) fails in
      run-looping n w times ∙ same ∙ looping-succeeds (n - k) k err (before w k) good

  -- If the first attempt and all `Times` retries fail, the call returns the error of the last one,
  -- and only after one more pause, which no attempt follows.
  pub run-exhausted :
      (n : ℕ) (w : W)
      → cfg.times ≡ pos n
      → ((j : ℕ) → j ≤ n → Fails w j)
      → run fl clock lib cfg next ctx f w
        ≡ ((attempt fl clock lib cfg next ctx f n (before w n)).0, before w (suc n))
  unfolding before loop
  run-exhausted n w times fails =
      let (err, same) =
        skip_failures n 1 (suc n) w (omega arith) (λ j h. fails j (omega (arith, h))) in
      let (x, failed) = fails n (omega arith) in
      run-looping n w times
      ∙ same
      ∙ looping-fails 0 n err (before w n) x failed
      ∙ ap (λ r. (r, before w (suc n))) (sym failed)
