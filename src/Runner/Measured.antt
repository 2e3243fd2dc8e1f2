-- ===== src/Runner/Measured.antt =====
-- What `metrics.NewMiddleware` records (metrics/runner.go).
use goresilience.Prelude.{String, ◌≡◌, refl, some, [], ◌∷◌}
use goresilience.Errors.{is_nil}
use goresilience.Runtime.{Clock}
use goresilience.Metrics.{
  Measurement, measuring, command_execution, Context, set_recorder_on_context,
}
use goresilience.Runner.{Func, command, sanitize_runner, runner_chain, measured, wrap_at, wrap_from}

module _ {W : Type 0} (clock : Clock W) (f : String → Measurement → W → W) (a b old : String) where
  -- Of two measuring middlewares the function sees the inner recorder, under the inner id; when it
  -- returns, one measurement is made under the inner id and then one under the outer id, both with
  -- its outcome and the time at which the chain began, and the error is returned as it is.
  pub measured-measured :
      (ctx : Context W) (fn : Func W) (w : W)
      → let chain = runner_chain (
          measured clock a (some (measuring f old))
          ∷ measured clock b (some (measuring f old))
          ∷ []) in
        let inner = command (set_recorder_on_context ctx (measuring f b)) fn w in
        let m = command_execution (clock.now w) (is_nil inner.0) in
        chain ctx fn w ≡ (inner.0, f a m (f b m inner.1))
  unfolding runner_chain measured sanitize_runner wrap_at wrap_from set_recorder_on_context
  measured-measured ctx fn w = refl
