-- ===== src/Http/Sheds.antt =====
-- What the HTTP middleware of the example answers.
use goresilience.Prelude.{ℕ, ◌≡◌, refl, ap, ◌∙◌, ◌⊎◌, inl, inr, false, Option, none, some}
use goresilience.Prelude.Int.{ℤ}
use goresilience.Errors.{Error, err_rejected_execution}
use goresilience.Runtime.{Effect, Cell, Clock}
use goresilience.Metrics.{Context, recorder_from_context}
use goresilience.Runner.{command, sanitize_runner}
use goresilience.Runner.Chain.{runner_chain-nest}
use goresilience.ConcurrencyLimit.Limit.{Limiter}
use goresilience.ConcurrencyLimit.Limited
use goresilience.ConcurrencyLimit.Limited.{Executor, inc, dec, job, submit, run}
use goresilience.Http.{
  Handler, status_too_many_requests, config, shedder, serve, respond, concurrencylimit_middleware,
}

module _ {W : Type 0} (clock : Clock W) (inflights executing queued : Cell W ℤ)
    (executor : Executor W) (limiter : Limiter W) (write_header : ℕ → W → W) where
  shedder-run :
      shedder clock inflights executing queued executor limiter write_header
      ≡ run clock inflights executing queued
          (config clock inflights executing queued executor limiter write_header)
          command
  unfolding shedder Limited.middleware sanitize_runner
  shedder-run = runner_chain-nest _

  respond-none :
      (r : Option Error × W)
      → r.0 ≡ none
      → respond clock inflights executing queued executor limiter write_header r ≡ r.1
  respond-none (none, w) e = refl
  respond-none (some err, w) e = cc

  respond-some :
      (r : Option Error × W) (err : Error)
      → r.0 ≡ some err
      → respond clock inflights executing queued executor limiter write_header r
        ≡ write_header status_too_many_requests r.1
  respond-some (none, w) err e = cc
  respond-some (some x, w) err e = refl

  module _ (next : Handler W) (request : Context W) where
    abbrev pub answer : W → Option Error × W
    answer w =
        shedder clock inflights executing queued executor limiter write_header request
          (serve clock inflights executing queued executor limiter write_header next request) w

    -- An executor runs the job, or rejects it.
    abbrev pub Obeys : Type 0
    Obeys =
        (j : Effect W (Option Error)) (w : W)
        → (executor.execute request j w ≡ j w)
          ⊎ ((executor.execute request j w).0 ≡ some err_rejected_execution)

    -- While the request is not cancelled the job has no error.
    job-none :
        ((w : W) → request.done w ≡ false)
        → (start : ℕ) (w : W)
        → (job clock inflights executing queued
            (config clock inflights executing queued executor limiter write_header)
            start
            (recorder_from_context request).0
            command
            request
            (serve clock inflights executing queued executor limiter write_header next request)
            w).0
          ≡ none
    unfolding job command
    job-none alive start w = rw (alive _) refl

    answered :
        ((w : W) → request.done w ≡ false)
        → Obeys
        → (w : W) → ((answer w).0 ≡ none) ⊎ ((answer w).0 ≡ some err_rejected_execution)
    unfolding run submit
    answered alive obeys w =
        rw shedder-run
          (elim (obeys _ _) [ inl e ↦ inl (ap (λ r. r.0) e ∙ job-none alive _ _) | inr e ↦ inr e ])

    -- If the executor runs or rejects what it gets, and the request is not cancelled, the middleware answers 429
    -- exactly when the execution was rejected: else it leaves the response to the next handler.
    pub concurrencylimit_middleware-sheds :
        ((w : W) → request.done w ≡ false)
        → Obeys
        → (w : W)
        → (((answer w).0 ≡ none)
            × (concurrencylimit_middleware clock inflights executing queued executor limiter
                  write_header next request w
                ≡ (answer w).1))
          ⊎ (((answer w).0 ≡ some err_rejected_execution)
              × (concurrencylimit_middleware clock inflights executing queued executor limiter
                    write_header next request w
                  ≡ write_header status_too_many_requests (answer w).1))
    unfolding concurrencylimit_middleware
    concurrencylimit_middleware-sheds alive obeys w = elim (answered alive obeys w) [
      | inl e ↦ inl (e, respond-none (answer w) e)
      | inr e ↦ inr (e, respond-some (answer w) err_rejected_execution e)
    ]
