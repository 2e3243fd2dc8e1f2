-- ===== src/Runner.antt =====
-- goresilience.go: the runner interface, the command at the end of every chain, and chains; and
-- metrics/runner.go, the middleware that puts a recorder on the context.
use goresilience.Prelude.{
  ℕ, zero, suc, String, ◌≡◌, refl, Bool, Option, none, some, List, [], ◌∷◌, length, get_elem?,
  if◌then◌else◌,
}
use goresilience.Errors.{Error, err_context_canceled, is_nil}
use goresilience.Runtime.{Effect, ◌>>=◌, ◌>>◌, return, perform, Clock}
use goresilience.Metrics.{
  Recorder, dummy, command_execution, with_id, observe, Context, set_recorder_on_context,
}
pub mod Chain
pub mod Measured

-- `goresilience.Func`; `none` is the nil error.
abbrev pub Func : Type 0 → Type 0
Func W = Context W → Effect W (Option Error)

-- `goresilience.Runner`, by its one method.
abbrev pub Runner : Type 0 → Type 0
Runner W = Context W → Func W → Effect W (Option Error)

-- `goresilience.Middleware`; `none` is a nil runner.
abbrev pub Middleware : Type 0 → Type 0
Middleware W = Option (Runner W) → Runner W

module _ {W : Type 0} where
  unfoldable pub command : Runner W
  command ctx f w = if ctx.done w then (some err_context_canceled, w) else f ctx w

  unfoldable pub sanitize_runner : Option (Runner W) → Runner W
  sanitize_runner none = command
  sanitize_runner (some r) = r

  -- `runner = middlewares[i](runner)`
  wrap_at : List (Middleware W) → ℕ → Runner W → Runner W
  wrap_at middlewares i runner = elim (get_elem? middlewares i) [
    | none ↦ runner
    | some m ↦ m (some runner)
  ]

  -- The loop `for i := len(middlewares) - 1; i >= 0; i--`, with `i + 1` rounds to go.
  wrap_from : List (Middleware W) → ℕ → Runner W → Runner W
  wrap_from middlewares zero runner = runner
  wrap_from middlewares (suc i) runner = wrap_from middlewares i (wrap_at middlewares i runner)

  unfoldable pub runner_chain : List (Middleware W) → Runner W
  unfolding wrap_at wrap_from
  runner_chain middlewares = wrap_from middlewares (length middlewares) command

  -- `metrics.NewMiddleware`: the deferred measurement runs when the chain has returned.
  unfoldable pub measured : Clock W → String → Option (Recorder W) → Middleware W
  measured clock id rec next ctx f = do
    start ← λ w. (clock.now w, w)
    err ← sanitize_runner next (set_recorder_on_context ctx recorder) f
    perform (observe recorder (command_execution start (is_nil err)))
    return err
    where
      recorder : Recorder W
      recorder = with_id (elim rec [ none ↦ dummy | some r ↦ r ]) id
