-- ===== src/Chaos.antt =====
-- chaos/inject.go: the runner that injects latency and errors. The injector and the counters of the
-- runner are two variables of the program, since a user changes the injector while it is used.
use goresilience.Prelude.{ℕ, suc, ◌+◌, Bool, ◌||◌, Option, none, some, if◌then◌else◌}
use goresilience.Prelude.Int.{ℤ, pos, pos_part, ltb_ℤ}
use goresilience.Errors.{Error, err_failure_injected, is_nil}
use goresilience.Runtime.{Effect, Cell, modify, Clock}
use goresilience.Metrics.{Recorder, chaos_injected_failure, observe, Context, recorder_from_context}
use goresilience.Runner.{Func, Runner, Middleware, sanitize_runner}
use goresilience.Float64.{Float64}
pub mod Ratio
pub mod First
pub mod Concurrent

pub record Injector : Type 0 where
  pub latency : ℤ
  pub error_percent : ℤ

-- The injector of a configuration that has none.
abbrev pub default_injector : Injector
default_injector = record { latency = pos 100_000_000; error_percent = pos 0 }

-- `errorf` makes the error of `fmt.Errorf`.
module _ {W : Type 0} (injector : Cell W Injector) where
  unfoldable pub set_latency : ℤ → W → W
  set_latency t = modify injector (λ i. record i { latency = t })

  unfoldable pub set_error_percent : (ℤ → Error) → ℤ → Effect W (Option Error)
  set_error_percent errorf percent w =
      if ltb_ℤ (pos 100) percent || ltb_ℤ percent (pos 0)
      then (some (errorf percent), w)
      else (none, modify injector (λ i. record i { error_percent = percent }) w)

pub record FailureInjector : Type 0 where
  pub total : ℕ
  pub errs : ℕ

-- `int((float64(f.errs) / float64(f.total)) * 100)`
abbrev pub current_err_perc : {F : Type 0} → Float64 F → (errs total : ℕ) → ℤ
current_err_perc fl errs total =
    fl.to_int (fl.mul (fl.div (fl.of_int (pos errs)) (fl.of_int (pos total))) (fl.of_int (pos 100)))

module _ {W F : Type 0} (fl : Float64 F) (clock : Clock W) (injector : Cell W Injector)
    (this : Cell W FailureInjector) where
  -- The deferred function.
  unfoldable pub measure : Option Error → W → W
  measure err =
      modify this
        (λ c. record { total = c.total + 1; errs = if is_nil err then c.errs else c.errs + 1 })

  unfoldable pub inject_latency : Recorder W → W → W
  inject_latency rec w =
      let lat = (injector.get w).latency in
      if ltb_ℤ (pos 0) lat
      then clock.sleep (pos_part lat) (observe rec (chaos_injected_failure "latency") w)
      else w

  -- The error attack, and the call of the runner.
  unfoldable pub inject_error : Runner W → Runner W
  inject_error runner ctx f w =
      if ltb_ℤ (current_err_perc fl (this.get w).errs (this.get w).total)
        (injector.get w).error_percent
      then (
        some err_failure_injected,
        observe (recorder_from_context ctx).0 (chaos_injected_failure "error") w,
      )
      else runner ctx f w

  unfoldable pub run : Runner W → Runner W
  unfolding inject_latency inject_error measure
  run runner ctx f w =
      let r = inject_error runner ctx f (inject_latency (recorder_from_context ctx).0 w) in
      (r.0, measure r.0 r.1)

  unfoldable pub middleware : Middleware W
  unfolding run
  middleware next = run (sanitize_runner next)
