-- ===== src/Tests/Runner.antt =====
-- Chains at concrete middlewares.
use goresilience.Prelude.{◌≡◌, some, [], ◌∷◌, ℕ}
use goresilience.Errors.{external}
use goresilience.Metrics.{measuring}
use goresilience.Runner.{Func, Middleware, runner_chain, measured}
use goresilience.Runner.Chain.{runner_chain-append}
use goresilience.Tests.World.{World, clock, write_log}

abbrev outer : Middleware (World ℕ)
outer = measured clock "outer" (some (measuring write_log ""))

abbrev inner : Middleware (World ℕ)
inner = measured clock "inner" (some (measuring write_log ""))

runner_chain-append_example :
    runner_chain (outer ∷ inner ∷ []) ≡ outer (some (runner_chain (inner ∷ [])))
runner_chain-append_example = runner_chain-append (outer ∷ []) (inner ∷ [])

abbrev fails : Func (World ℕ)
fails ctx w = (some (external 7), record w { own = 1; time = 9 })

abbrev start : World ℕ
start = record { time = 5; own = 0; log = [] }
