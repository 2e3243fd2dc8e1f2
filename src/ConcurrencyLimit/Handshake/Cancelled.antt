-- ===== src/ConcurrencyLimit/Handshake/Cancelled.antt =====
-- What becomes of the function of a call that was rejected.
use goresilience.Prelude.{◌≡◌, refl, true, Option, some, [], ◌∷◌, arith}
use goresilience.Errors.{Error, err_rejected_execution}
use goresilience.ConcurrencyLimit.Handshake.{
  Kind, returned, Job, queued, started, running, skipped, done, Call, Step, dequeue, skip, go,
  finish, notice, expire, cancel, collect, Reach, start, later, Steps, here, more,
}

-- The job is not past its test, and what it would test is set.
abbrev IsCut : Call → Job → Type 0
IsCut q queued = q.canceled ≡ true
IsCut q started = q.canceled ≡ true
IsCut q running = ⊥
IsCut q skipped = Unit {0}
IsCut q done = ⊥

module _ (kind : Kind) where
  Step-IsCut :
      {q r : Call}
      → Step kind q r
      → IsCut q q.job
      → q.outcomes ≡ []
      → IsCut r r.job × (r.outcomes ≡ [])
  Step-IsCut (dequeue e) v o = ground arith
  Step-IsCut (skip e f) v o = ground arith
  Step-IsCut (go e f) v o = ground arith
  Step-IsCut (finish err e f) v o = ground arith
  Step-IsCut (notice e f) v o = ground arith
  Step-IsCut (expire e) v o = ground arith
  Step-IsCut (cancel e) v o = ground arith
  Step-IsCut (collect err e f) v o = ground arith

  Steps-IsCut :
      {q r : Call}
      → Steps kind q r
      → IsCut q q.job
      → q.outcomes ≡ []
      → IsCut r r.job × (r.outcomes ≡ [])
  Steps-IsCut here v o = (v, o)
  Steps-IsCut (more before st) v o = let (w, p) = Steps-IsCut before v o in Step-IsCut st w p

  -- A function whose call is cancelled before its job is dequeued never runs, whatever happens.
  pub Steps-never_runs :
      {q r : Call}
      → Steps kind q r
      → q.job ≡ queued
      → q.canceled ≡ true
      → q.outcomes ≡ []
      → r.outcomes ≡ []
  Steps-never_runs path e f o = (Steps-IsCut path (ground arith) o).1

  -- A function can run to its end after its call was rejected, and then what it returns is lost: whatever it
  -- would return, there is an interleaving in which the call has returned the error of a rejected
  -- execution while its function runs and has not returned, and in the next step the function returns.
  pub rejected_runs :
      (err : Option Error)
      → (p : Call) × (q : Call) × Reach kind 4 p
        × Step kind p q
        × (p.caller ≡ returned (some err_rejected_execution))
        × (p.job ≡ running)
        × (p.outcomes ≡ [])
        × (q.caller ≡ returned (some err_rejected_execution))
        × (q.outcomes ≡ err ∷ [])
  rejected_runs err = (
    _,
    _,
    later (later (later (later start (dequeue refl)) (go refl refl)) (expire refl)) (cancel refl),
    finish err refl refl,
    refl,
    refl,
    refl,
    refl,
    refl,
  )
