-- ===== src/Failer/Retried.antt =====
-- The chain of examples/extend/extend.go: the retry runner of retry/retry.go around the failer.
use goresilience.Prelude.{
  ℕ, zero, suc, ◌≤◌, ◌<◌, ◌≡◌, refl, ap, ◌∙◌, inl, inr, true, false, Option, none, some, [], ◌∷◌,
  arith, if◌then◌else◌, Bool-cases,
}
use goresilience.Prelude.Int.{ℤ, pos, negsuc, leb_ℤ}
use goresilience.Errors.{Error}
use goresilience.Runtime.{Cell, Clock}
use goresilience.Metrics.{retry, observe, Context, recorder_from_context}
use goresilience.Runner.{Func, Runner, command, runner_chain, sanitize_runner}
use goresilience.Runner.Chain.{runner_chain-nest}
use goresilience.Float64.{Float64}
use goresilience.Retry
use goresilience.Retry.{Backoff, wait_duration, pause, attempt}
use goresilience.Retry.Attempts.{before, run-succeeds}
use goresilience.Failer
use goresilience.Failer.{called}
use goresilience.Failer.Turns.{is_turn, run-turn}

-- The defaults leave at least one retry.
some_retry : (cfg : Retry.Config) → (m : ℕ) × ((Retry.defaults cfg).times ≡ pos m) × (1 ≤ m)
unfolding Retry.defaults
some_retry cfg = from_times cfg.times
  where
    from_times : (t : ℤ) → (m : ℕ) × ((if leb_ℤ t (pos 0) then pos 3 else t) ≡ pos m) × (1 ≤ m)
    from_times (pos zero) = (3, refl, omega arith)
    from_times (pos (suc k)) = (suc k, ground arith, omega arith)
    from_times (negsuc k) = (3, ground arith, omega arith)

module _ {W F : Type 0} (fl : Float64 F) (clock : Clock W) (lib : Backoff W F) (cfg : Retry.Config)
    (called_times : Cell W ℤ) (failed : Error) (failer : Failer.Config) where
  -- The runner of the example.
  abbrev pub chain : Runner W
  chain =
      runner_chain
        (Retry.middleware fl clock lib cfg ∷ Failer.middleware called_times failed failer ∷ [])

module _ {W F : Type 0} (fl : Float64 F) (clock : Clock W) (lib : Backoff W F) (cfg : Retry.Config)
    (called_times : Cell W ℤ) (failed : Error) (failer : Failer.Config) (ctx : Context W)
    (f : Func W) (n : ℕ) (every : failer.fail_every_times ≡ pos n) (two : 2 ≤ n)
    (sleeps : (d : ℕ) (w : W) → called_times.get (clock.sleep d w) ≡ called_times.get w)
    (draws : (w : W) → called_times.get (lib.random w).1 ≡ called_times.get w)
    (observes : (w : W)
      → called_times.get (observe (recorder_from_context ctx).0 retry w) ≡ called_times.get w)
    (goes_on : (w : W) → ctx.done w ≡ false) (succeeds : (w : W) → (f ctx w).0 ≡ none) where
  abbrev next : Runner W
  next = Failer.run called_times failed failer command

  abbrev tried : ℕ → W → Option Error × W
  tried = attempt fl clock lib (Retry.defaults cfg) next ctx f

  pause-count :
      (i : ℕ) (w : W)
      → called_times.get (pause fl clock lib (Retry.defaults cfg) i w) ≡ called_times.get w
  unfolding pause wait_duration
  pause-count i w = elim (Bool-cases (Retry.defaults cfg).disable_backoff) [
    | inl e ↦ rw e (sleeps _ _)
    | inr e ↦ rw e (sleeps _ _ ∙ draws w)
  ]

  -- A call of the failer that is not its turn succeeds.
  passes :
      (c : ℕ) (w : W) → called_times.get w ≡ pos c → is_turn n c ≡ false → (next ctx f w).0 ≡ none
  unfolding command
  passes c w e t =
      ap (λ r. r.0) (run-turn called_times failed failer command ctx f n c w every e)
      ∙ rw t (rw (goes_on (called called_times failed failer w)) (succeeds _))

  fails :
      (c : ℕ) (w : W)
      → called_times.get w ≡ pos c
      → is_turn n c ≡ true
      → ((next ctx f w).0 ≡ some failed) × (called_times.get (next ctx f w).1 ≡ pos 0)
  fails c w e t =
      rw (run-turn called_times failed failer command ctx f n c w every e, t)
        (refl, called_times.get-put _ _)

  first_fails :
      (c : ℕ) (w : W)
      → called_times.get w ≡ pos c
      → is_turn n c ≡ true
      → (j : ℕ) → j < 1
      → (e : Error) × ((tried j (before fl clock lib (Retry.defaults cfg) next ctx f w j)).0
          ≡ some e)
  unfolding before attempt
  first_fails c w e t zero l = (failed, (fails c w e t).0)
  first_fails c w e t (suc j) l = absurd (omega (arith, l))

  second_passes :
      (c : ℕ) (w : W)
      → called_times.get w ≡ pos c
      → is_turn n c ≡ true
      → (tried 1 (before fl clock lib (Retry.defaults cfg) next ctx f w 1)).0 ≡ none
  unfolding before attempt
  second_passes c w e t =
      passes 0 _ (observes _ ∙ pause-count 0 _ ∙ (fails c w e t).1) (ground arith)

  retried :
      (c : ℕ) (w : W)
      → called_times.get w ≡ pos c
      → (Retry.run fl clock lib (Retry.defaults cfg) next ctx f w).0 ≡ none
  unfolding before attempt
  retried c w e =
      let (m, times, one) = some_retry cfg in
      elim (Bool-cases (is_turn n c)) [
        | inl t ↦
            ap (λ r. r.0)
              (run-succeeds fl clock lib (Retry.defaults cfg) next ctx f m 1 w times one
                (first_fails c w e t) (second_passes c w e t))
        | inr t ↦
            ap (λ r. r.0)
              (run-succeeds fl clock lib (Retry.defaults cfg) next ctx f m 0 w times (omega arith)
                (λ j h. absurd (omega (arith, h))) (passes c w e t))
      ]

  -- The retry runner hides a failer: if the function always succeeds, and the failer fails every
  -- second call or less often, every call of the chain of the two succeeds, with any settings of
  -- `retry` and at any count of the failer, if only the failer writes its counter and the context is
  -- not done.
  pub chain-succeeds :
      (c : ℕ) (w : W)
      → called_times.get w ≡ pos c
      → (chain fl clock lib cfg called_times failed failer ctx f w).0 ≡ none
  unfolding Retry.middleware Failer.middleware sanitize_runner
  chain-succeeds c w e =
      ap (λ r. (r ctx f w).0)
        (runner_chain-nest
          (Retry.middleware fl clock lib cfg ∷ Failer.middleware called_times failed failer ∷ []))
      ∙ retried c w e
