-- ===== src/ConcurrencyLimit/Limited/Tuned.antt =====
-- The workers of the executor and the limit of the limiter, here AIMD and the worker pool.
use goresilience.Prelude.{ℕ, zero, suc, ◌≡◌, refl, sym, ap, ◌∙◌, Option, arith, length}
use goresilience.Prelude.Int.{ℤ, pos, negsuc}
use goresilience.Errors.{Error}
use goresilience.Runtime.{Effect, Cell, modify, Clock}
use goresilience.Metrics.{Measurement, Recorder, observe, Context, recorder_from_context}
use goresilience.Runner.{Func, Runner}
use goresilience.Float64.{Float64}
use goresilience.ConcurrencyLimit.Limit.{Result, success, failure, ignore}
use goresilience.ConcurrencyLimit.Limit.Aimd.{Aimd, get_limit, sample, limiter}
use goresilience.ConcurrencyLimit.Workers.{WorkerPool, new_worker_pool, set_worker_quantity}
use goresilience.ConcurrencyLimit.Workers.Accounts.{IsAccounted, wanted, set_worker_quantity-lem}
use goresilience.ConcurrencyLimit.Limited.{
  Config, inc, dec, job, measure, submit, run, set_initial_limit,
}

module _ {F : Type 0} (fl : Float64 F) where
  -- As many workers as the limit says, if it is not negative, and none of them stopped.
  abbrev pub Tuned : Aimd F → WorkerPool → Type 0
  Tuned a p =
      IsAccounted p
      × (wanted (get_limit fl a) (length p.worker_stoppers) ≡ length p.worker_stoppers)

  wanted_twice : (q : ℤ) (n : ℕ) → wanted q (wanted q n) ≡ wanted q n
  wanted_twice (pos m) n = refl
  wanted_twice (negsuc m) n = refl

  set_worker_quantity-Tuned :
      (q : ℤ) (a : Aimd F) (p : WorkerPool)
      → IsAccounted p
      → q ≡ get_limit fl a
      → Tuned a (set_worker_quantity q p)
  set_worker_quantity-Tuned q a p v e =
      let (kept, size) = set_worker_quantity-lem q p v in
      (
        kept,
        ap (λ x. wanted x (length (set_worker_quantity q p).worker_stoppers)) (sym e)
            ∙ ap (wanted q) size
            ∙ wanted_twice q (length p.worker_stoppers)
            ∙ sym size,
      )

  -- What a sample returns is the limit afterwards.
  sample-get_limit :
      (elapsed inflight : ℤ) (r : Result) (a : Aimd F)
      → (sample fl elapsed inflight r a).0 ≡ get_limit fl (sample fl elapsed inflight r a).1
  unfolding sample get_limit
  sample-get_limit elapsed inflight success a = ground arith
  sample-get_limit elapsed inflight failure a = refl
  sample-get_limit elapsed inflight ignore a = refl

module _ {W F : Type 0} (fl : Float64 F) (clock : Clock W) (inflights executing queued : Cell W ℤ)
    (aimd : Cell W (Aimd F)) (pool : Cell W WorkerPool)
    (execute : Context W → Effect W (Option Error) → Effect W (Option Error))
    (policy : Context W → Option Error → Result) (runner : Runner W) (ctx : Context W)
    (f : Func W) where
  abbrev pub wired : Config W
  wired = record {
    limiter = limiter fl clock aimd;
    executor = record {
      execute = execute;
      set_worker_quantity = λ n. modify pool (set_worker_quantity n);
    };
    execution_result_policy = policy;
  }

  abbrev rec : Recorder W
  rec = (recorder_from_context ctx).0

  abbrev pub IsTuned : W → Type 0
  IsTuned w = Tuned fl (aimd.get w) (pool.get w)

  abbrev pub Agree : W → W → Type 0
  Agree v w = (aimd.get v ≡ aimd.get w) × (pool.get v ≡ pool.get w)

  -- The limiter and the pool are variables of their own; what else runs keeps them tuned.
  pub record IsWired : Type 0 where
    pub measurements : (m : Measurement) (w : W) → Agree (observe rec m w) w
    pub queued_apart : (d : ℤ) (w : W) → Agree (queued.put d w) w
    pub inflights_apart : (n : ℤ) (w : W) → Agree (inflights.put n w) w
    pub executing_apart : (n : ℤ) (w : W) → Agree (executing.put n w) w
    pub aimd_apart : (a : Aimd F) (w : W) → pool.get (aimd.put a w) ≡ pool.get w
    pub pool_apart : (p : WorkerPool) (w : W) → aimd.get (pool.put p w) ≡ aimd.get w
    pub runner_keeps : (w : W) → IsTuned w → IsTuned (runner ctx f w).1
    pub execute_keeps :
        (j : Effect W (Option Error))
        → ((v : W) → IsTuned v → IsTuned (j v).1)
        → (w : W) → IsTuned w
        → IsTuned (execute ctx j w).1

  along : {v w : W} → Agree v w → IsTuned w → IsTuned v
  along (a, p) t = rw (a, p) t

  job-IsTuned :
      IsWired
      → (start : ℕ) (w : W) → IsTuned w
      → IsTuned (job clock inflights executing queued wired start rec runner ctx f w).1
  unfolding job inc dec
  job-IsTuned s start w t = along (s.measurements _ _) (
      along (s.executing_apart _ _) (
        s.runner_keeps _ (
          along (s.measurements _ _) (
            along (s.executing_apart _ _)
              (along (s.measurements _ _) (along (s.queued_apart _ w) t))))))

  submit-IsTuned :
      IsWired
      → (start : ℕ) (w : W) → IsTuned w
      → IsTuned (submit clock inflights executing queued wired start rec runner ctx f w).1
  unfolding submit inc dec
  submit-IsTuned s start w t = along (s.measurements _ _) (
      along (s.inflights_apart _ _) (
        s.execute_keeps _ (job-IsTuned s start) _ (
          along (s.queued_apart _ _)
            (along (s.measurements _ _) (along (s.inflights_apart _ w) t)))))

  -- The pool is set to the limit of the limiter.
  modify-IsTuned :
      IsWired
      → (q : ℤ) (a : Aimd F) (p : WorkerPool) (v : W) → aimd.get v ≡ a
      → pool.get v ≡ p
      → IsAccounted p
      → q ≡ get_limit fl a
      → IsTuned (modify pool (set_worker_quantity q) v)
  modify-IsTuned s q a p v learnt old kept e =
      let made : pool.get (modify pool (set_worker_quantity q) v) ≡ set_worker_quantity q p =
        pool.get-put (set_worker_quantity q (pool.get v)) v ∙ ap (set_worker_quantity q) old in
      let limit : aimd.get (modify pool (set_worker_quantity q) v) ≡ a =
        s.pool_apart (set_worker_quantity q (pool.get v)) v ∙ learnt in
      rw (limit, made) (set_worker_quantity-Tuned fl q a p kept e)

  -- The limiter learns `a`, and the pool is set to the quantity `q`.
  set-IsTuned :
      IsWired
      → (m : Measurement) (q : ℤ) (a : Aimd F) (w : W) → IsTuned w
      → q ≡ get_limit fl a
      → IsTuned (modify pool (set_worker_quantity q) (observe rec m (aimd.put a w)))
  set-IsTuned s m q a w t e =
      let seen = s.measurements m (aimd.put a w) in
      modify-IsTuned s q a (pool.get w) (observe rec m (aimd.put a w)) (seen.0 ∙ aimd.get-put a w)
        (seen.1 ∙ s.aimd_apart a w) t.0 e

  measure-IsTuned :
      IsWired
      → (start : ℕ) (n : ℤ) (r : Result) (w : W) → IsTuned w
      → IsTuned (measure clock inflights executing queued wired start rec n r w)
  unfolding measure
  measure-IsTuned s start n ignore w t = t
  measure-IsTuned s start n success w t =
      set-IsTuned s _ _ _ w t (sample-get_limit fl _ n success (aimd.get w))
  measure-IsTuned s start n failure w t =
      set-IsTuned s _ _ _ w t (sample-get_limit fl _ n failure (aimd.get w))

  run-IsTuned :
      IsWired
      → (w : W) → IsTuned w
      → IsTuned (run clock inflights executing queued wired runner ctx f w).1
  unfolding run
  run-IsTuned s w t =
      measure-IsTuned s _ _ _ _ (along (s.measurements _ _) (submit-IsTuned s (clock.now w) w t))

  -- The world after `n` calls.
  pub calls : ℕ → W → W
  calls zero w = w
  calls (suc n) w = (run clock inflights executing queued wired runner ctx f (calls n w)).1

  set_initial_limit-IsTuned :
      IsWired
      → (w : W) → pool.get w ≡ new_worker_pool
      → IsTuned (set_initial_limit clock inflights executing queued wired w)
  unfolding set_initial_limit new_worker_pool get_limit
  set_initial_limit-IsTuned s w start =
      modify-IsTuned s _ (aimd.get w) new_worker_pool w refl start refl refl

  -- If calls run one after another, never two at once: from the creation of the middleware on, and after
  -- any number of calls, executed, rejected or ignored ones, as many workers run as the int of the AIMD
  -- limit says, if it is not negative, and each stop channel is closed at most once. Limiter and pool are
  -- taken to be variables of their own, and the runner and the executor, which runs a job or rejects it,
  -- are taken to keep the pool at the limit themselves.
  pub calls-IsTuned :
      IsWired
      → (n : ℕ) (w : W) → pool.get w ≡ new_worker_pool
      → IsTuned (calls n (set_initial_limit clock inflights executing queued wired w))
  unfolding calls
  calls-IsTuned s zero w start = set_initial_limit-IsTuned s w start
  calls-IsTuned s (suc n) w start = run-IsTuned s _ (calls-IsTuned s n w start)
