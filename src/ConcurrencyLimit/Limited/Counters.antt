-- ===== src/ConcurrencyLimit/Limited/Counters.antt =====
-- The counters of the runner after a call.
use goresilience.Prelude.{ℕ, ◌≡◌, refl, ap, ◌∙◌, Option, arith}
use goresilience.Prelude.Int.{ℤ, pos, negsuc, ◌+ℤ◌, ◌-ℤ◌}
use goresilience.Errors.{Error}
use goresilience.Runtime.{Effect, Cell, Clock}
use goresilience.Metrics.{
  Measurement, Recorder, inflight_executions, executing_executions, limiter_limit, queued_time,
  observe, Context, recorder_from_context,
}
use goresilience.Runner.{Func, Runner}
use goresilience.ConcurrencyLimit.Limit.{Result, success, failure, ignore}
use goresilience.ConcurrencyLimit.Limited.{Config, inc, dec, job, measure, submit, run}

back_ℤ : (n : ℤ) → n +ℤ pos 1 -ℤ pos 1 ≡ n
back_ℤ (pos n) = ground arith
back_ℤ (negsuc n) = ground arith

-- A counter that is the same when it is decremented as after it was incremented.
dec-inc :
    {W : Type 0} (c : Cell W ℤ) (w v : W)
    → c.get v ≡ c.get (inc c w).1
    → c.get (dec c v).1 ≡ c.get w
unfolding inc dec
dec-inc c w v e = c.get-put _ v ∙ ap (λ n. n -ℤ pos 1) (e ∙ c.get-put _ w) ∙ back_ℤ (c.get w)

module _ {W : Type 0} (clock : Clock W) (inflights executing : Cell W ℤ) (queued : Cell W ℤ)
    (cfg : Config W) (runner : Runner W) (ctx : Context W) (f : Func W) where
  abbrev rec : Recorder W
  rec = (recorder_from_context ctx).0

  abbrev pub Same : W → W → Type 0
  Same v w = (inflights.get v ≡ inflights.get w) × (executing.get v ≡ executing.get w)

  -- Nothing but the runner itself writes its counters; the executor keeps what its job keeps.
  pub record IsPrivate : Type 0 where
    pub measurements : (m : Measurement) (w : W) → Same (observe rec m w) w
    pub queued_apart : (d : ℤ) (w : W) → Same (queued.put d w) w
    pub inflights_apart : (n : ℤ) (w : W) → executing.get (inflights.put n w) ≡ executing.get w
    pub executing_apart : (n : ℤ) (w : W) → inflights.get (executing.put n w) ≡ inflights.get w
    pub runner_keeps : (w : W) → Same (runner ctx f w).1 w
    pub execute_keeps :
        (j : Effect W (Option Error))
        → ((v : W) → Same (j v).1 v)
        → (w : W) → Same (cfg.executor.execute ctx j w).1 w
    pub limiter_keeps :
        (start : ℕ) (d n : ℤ) (r : Result) (w : W)
        → Same (cfg.limiter.measure_sample start d n r w).1 w
    pub set_keeps : (n : ℤ) (w : W) → Same (cfg.executor.set_worker_quantity n w) w

  job-Same :
      IsPrivate
      → (start : ℕ) (w : W)
      → Same (job clock inflights executing queued cfg start rec runner ctx f w).1 w
  unfolding job inc dec
  job-Same s start w =
      let a = queued.put (pos (clock.now w) -ℤ pos start) w in
      let b = observe rec (queued_time start) a in
      let begun = inc executing b in
      let c = observe rec (executing_executions begun.0) begun.1 in
      let d = (runner ctx f c).1 in
      let ended = dec executing d in
      let put_a = s.queued_apart (pos (clock.now w) -ℤ pos start) w in
      let seen = s.measurements (queued_time start) a in
      let marked = s.measurements (executing_executions begun.0) begun.1 in
      let ran = s.runner_keeps c in
      let last = s.measurements (executing_executions ended.0) ended.1 in
      (
        last.0
            ∙ s.executing_apart _ d
            ∙ ran.0
            ∙ marked.0
            ∙ s.executing_apart _ b
            ∙ seen.0
            ∙ put_a.0,
        last.1 ∙ dec-inc executing b d (ran.1 ∙ marked.1) ∙ seen.1 ∙ put_a.1,
      )

  submit-Same :
      IsPrivate
      → (start : ℕ) (w : W)
      → Same (submit clock inflights executing queued cfg start rec runner ctx f w).1 w
  unfolding submit inc dec
  submit-Same s start w =
      let begun = inc inflights w in
      let b = observe rec (inflight_executions begun.0) begun.1 in
      let c = queued.put (pos 0) b in
      let j = job clock inflights executing queued cfg start rec runner ctx f in
      let d = (cfg.executor.execute ctx j c).1 in
      let ended = dec inflights d in
      let seen = s.measurements (inflight_executions begun.0) begun.1 in
      let put_c = s.queued_apart (pos 0) b in
      let ran = s.execute_keeps j (job-Same s start) c in
      let last = s.measurements (inflight_executions ended.0) ended.1 in
      (
        last.0 ∙ dec-inc inflights w d (ran.0 ∙ put_c.0 ∙ seen.0),
        last.1 ∙ s.inflights_apart _ d ∙ ran.1 ∙ put_c.1 ∙ seen.1 ∙ s.inflights_apart _ w,
      )

  trans_Same : {u v w : W} → Same u v → Same v w → Same u w
  trans_Same (a, b) (c, d) = (a ∙ c, b ∙ d)

  counted :
      IsPrivate
      → (start : ℕ) (d n : ℤ) (r : Result) (w : W)
      → let m = cfg.limiter.measure_sample start d n r w in
        Same (cfg.executor.set_worker_quantity m.0 (observe rec (limiter_limit m.0) m.1)) w
  counted s start d n r w =
      trans_Same (s.set_keeps _ _) (trans_Same (s.measurements _ _) (s.limiter_keeps start d n r w))

  measure-Same :
      IsPrivate
      → (start : ℕ) (n : ℤ) (r : Result) (w : W)
      → Same (measure clock inflights executing queued cfg start rec n r w) w
  unfolding measure
  measure-Same s start n ignore w = (refl, refl)
  measure-Same s start n success w = counted s start (queued.get w) n success w
  measure-Same s start n failure w = counted s start (queued.get w) n failure w

  -- A call leaves the counts of the executions in flight and of the executing ones as they were,
  -- whether the job was executed or rejected and whatever its result counts as, if nothing but the
  -- runner writes its counters and the executor keeps what its job keeps.
  pub run-Same :
      IsPrivate → (w : W) → Same (run clock inflights executing queued cfg runner ctx f w).1 w
  unfolding run
  run-Same s w =
      trans_Same (measure-Same s _ _ _ _)
        (trans_Same (s.measurements _ _) (submit-Same s (clock.now w) w))
