-- ===== src/Runner/Chain.antt =====
-- The order in which `RunnerChain` wraps (goresilience.go).
use goresilience.Prelude.{
  ℕ, zero, suc, ◌≡◌, refl, sym, ◌∙◌, ap, some, List, [], ◌∷◌, ◌++◌, length, take,
}
use goresilience.Runner.{Runner, Middleware, command, wrap_at, wrap_from, runner_chain}

module _ {W : Type 0} where
  -- The first middleware outermost: what a reader of `RunnerChain(a, b, c)` expects.
  abbrev pub nest : List (Middleware W) → Runner W → Runner W
  nest [] r = r
  nest (m ∷ ms) r = m (some (nest ms r))

  take-all : (ms : List (Middleware W)) → take (length ms) ms ≡ ms
  take-all [] = refl
  take-all (m ∷ ms) = ap (◌∷◌ m) (take-all ms)

  -- One round of the loop wraps what the middlewares before it will wrap.
  nest-take-suc :
      (ms : List (Middleware W)) (i : ℕ) (r : Runner W)
      → nest (take i ms) (wrap_at ms i r) ≡ nest (take (suc i) ms) r
  unfolding wrap_at
  nest-take-suc [] zero r = refl
  nest-take-suc [] (suc i) r = refl
  nest-take-suc (m ∷ ms) zero r = refl
  nest-take-suc (m ∷ ms) (suc i) r = ap (λ x. m (some x)) (nest-take-suc ms i r)

  wrap_from-nest :
      (ms : List (Middleware W)) (i : ℕ) (r : Runner W) → wrap_from ms i r ≡ nest (take i ms) r
  unfolding wrap_from
  wrap_from-nest ms zero r = refl
  wrap_from-nest ms (suc i) r = wrap_from-nest ms i (wrap_at ms i r) ∙ nest-take-suc ms i r

  nest-append :
      (ms ns : List (Middleware W)) (r : Runner W) → nest (ms ++ ns) r ≡ nest ms (nest ns r)
  nest-append [] ns r = refl
  nest-append (m ∷ ms) ns r = ap (λ x. m (some x)) (nest-append ms ns r)

  -- The loop from the last middleware down builds the chain in the order that was passed: the
  -- first middleware outermost, `command` innermost.
  pub runner_chain-nest : (ms : List (Middleware W)) → runner_chain ms ≡ nest ms command
  unfolding runner_chain
  runner_chain-nest ms =
      wrap_from-nest ms (length ms) command ∙ ap (λ xs. nest xs command) (take-all ms)

  -- A chain of two lists of middlewares is the first list around the chain of the second.
  pub runner_chain-append :
      (ms ns : List (Middleware W)) → runner_chain (ms ++ ns) ≡ nest ms (runner_chain ns)
  runner_chain-append ms ns =
      runner_chain-nest (ms ++ ns)
      ∙ nest-append ms ns command
      ∙ ap (nest ms) (sym (runner_chain-nest ns))
