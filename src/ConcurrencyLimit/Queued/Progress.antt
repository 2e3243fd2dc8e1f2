-- ===== src/ConcurrencyLimit/Queued/Progress.antt =====
-- A call of an executor that has a queue can always go on.
use goresilience.Prelude.{
  ℕ, ◌≡◌, ◌≢◌, refl, ap, ◌∙◌, ◌⊎◌, inl, inr, true, Option, none, some, arith,
}
use goresilience.Errors.{Error}
use goresilience.ConcurrencyLimit.Handshake.{
  Kind, Caller, waiting, cancelling, collecting, returned,
}
use goresilience.ConcurrencyLimit.Handshake.Outcome
use goresilience.ConcurrencyLimit.Handshake.Outcome.{Ran, Stands}
use goresilience.ConcurrencyLimit.Queued.{
  Worker, idle, holding, started, running, gone, System, Step, go, finish, expire, cancel, collect,
  Reach,
}
use goresilience.ConcurrencyLimit.Queued.Stages.{
  shown, starts, runs, about, Stage, waits, passes, held, begun, runs_at, skipped, done, job_of,
  mark_of, Follows,
}
use goresilience.ConcurrencyLimit.Queued.Refines.{Reached}
use goresilience.ConcurrencyLimit.Queued.Alone

starts_job : (c : ℕ) (w : Worker) → about c w ≡ starts → w ≡ started c
starts_job c idle e = cc
starts_job c (holding d) e = ground (arith, e)
starts_job c (started d) e = ground (arith, e)
starts_job c (running d) e = ground (arith, e)
starts_job c gone e = cc

runs_job : (c : ℕ) (w : Worker) → about c w ≡ runs → w ≡ running c
runs_job c idle e = cc
runs_job c (holding d) e = ground (arith, e)
runs_job c (started d) e = ground (arith, e)
runs_job c (running d) e = ground (arith, e)
runs_job c gone e = cc

-- The call `c` or the worker that has its job has moved.
abbrev pub Moved : System → System → ℕ → Type 0
Moved s t c =
    (t.calls c ≢ s.calls c) ⊎ ((i : ℕ) × (s.workers i ≡ started c) × (t.workers i ≡ running c))

module _ (kind : Kind) (s : System) (c : ℕ) where
  abbrev GoesOn : Type 0
  GoesOn = (t : System) × Step kind s t × Moved s t c

  collects :
      (st : Stage) (res : Option (Option Error))
      → ((k : ℕ) → about c (s.workers k) ≡ mark_of st k)
      → Outcome.Inv (shown (s.calls c) (job_of st))
      → (s.calls c).caller ≡ collecting
      → (s.calls c).res ≡ res
      → GoesOn
  collects waits r m v e g = absurd (ground (arith, v.ran, v.stands, e))
  collects passes r m v e g = absurd (ground (arith, v.ran, v.stands, e))
  collects (held i) r m v e g = absurd (ground (arith, v.ran, v.stands, e))
  collects (begun i) r m v e g =
      let w = starts_job c (s.workers i) (m i ∙ ground arith) in
      (_, go c i w (ground (arith, v.stands, e)), inr (i, w, ground arith))
  collects (runs_at i) r m v e g =
      let w = runs_job c (s.workers i) (m i ∙ ground arith) in
      let none_yet : (s.calls c).res ≡ none = ground (arith, v.ran, v.stands, e) in
      (
        _,
        finish c i none w none_yet,
        inl (λ h. let k = ap (λ q. q.res) h in ground (arith, k, none_yet)),
      )
  collects skipped r m v e g = absurd (ground (arith, v.stands, e))
  collects done none m v e g = absurd (ground (arith, v.stands, v.finished, e, g))
  collects done (some err) m v e g =
      (_, collect c err e g, inl (λ h. let k = ap (λ q. q.caller) h in ground (arith, k, e)))

  next :
      (at : Caller)
      → Follows (Reached kind) s.workers s.queue.delivered s.forwarder c (s.calls c)
      → (s.calls c).entered ≡ true
      → (s.calls c).caller ≡ at
      → ((err : Option Error) → at ≢ returned err)
      → GoesOn
  next waiting v n e h =
      (_, expire c n e, inl (λ g. let k = ap (λ q. q.caller) g in ground (arith, k, e)))
  next cancelling v n e h =
      (_, cancel c e, inl (λ g. let k = ap (λ q. q.caller) g in ground (arith, k, e)))
  next collecting v n e h =
      collects v.stage (s.calls c).res v.at_stage.marks (Outcome.Reach-Inv kind v.run.1) e refl
  next (returned err) v n e h = absurd (h err refl)

  -- A call of `Execute` that has not returned can always go on, or the worker that has its job can,
  -- without a step of another call, of the queue, of the forwarder or of another worker before. The
  -- function of the job is taken to return when it runs.
  pub Reach-moves_on :
      Reach kind s
      → (s.calls c).entered ≡ true
      → ((err : Option Error) → (s.calls c).caller ≢ returned err)
      → (t : System) × Step kind s t × Moved s t c
  Reach-moves_on reach n h =
      next (s.calls c).caller ((Alone.Reach-Inv kind reach).follows c) n refl h
