-- ===== src/Lib.antt =====
-- goresilience (https://github.com/slok/goresilience): runners that make calls resilient.
--
-- A runner takes a context and a function and runs the function in its way; a middleware makes a
-- runner out of the next one, and a chain nests middlewares around the runner that just calls the
-- function. The parts are the middlewares: each decides whether and how often it calls the next
-- runner, reads the clock, and reports to the metrics recorder that it finds in the context.
--
-- Shared: a Go function that may change the world is a function of the world `W` (Runtime), its
-- clock, its random numbers and the variables of a runner being operations on `W` that the
-- theorems take as parameters; an error is a value, and a nil error is `none` (Errors). A method
-- that holds a mutex from beginning to end is one function of the state that it protects. Where
-- goroutines meet on channels, what they do is a step relation, in which any order is possible.
-- The concurrency limit hands the job of a call to an executor, and that to its queue and its
-- workers: the executor as a whole refines the steps of one call (Handshake, Fifo), and what a call
-- gets there is what the overlapping calls of the runner (Limited/Concurrent) take from an executor.
--
-- Files and sources:
--   Errors                    errors/errors.go
--   Metrics                   metrics/metrics.go (a call of a Recorder method is a Measurement),
--                             metrics/dummy.go, and the lookup of metrics/runner.go
--   Metrics/Prometheus        metrics/prometheus.go; Metrics/PrometheusClient is what it uses of the
--                             client library, as a parameter with laws
--   Runner                    goresilience.go, and NewMiddleware of metrics/runner.go (measured)
--   CircuitBreaker            circuitbreaker/circuitbreaker.go: one function per method; run is Run.
--                             In CircuitBreaker/Concurrent, calls that overlap as a step relation
--   CircuitBreaker/Window     circuitbreaker/metrics.go: slide is one tick of windowSlider
--   Retry                     retry/retry.go
--   Chaos                     chaos/inject.go; in Chaos/Concurrent, calls that overlap
--   Timeout                   timeout/timeout.go: one call as a step relation
--   Bulkhead                  bulkhead/bulkhead.go: any number of calls and the workers
--   Failer                    examples/extend/extend.go: the middleware, and its chain with retry
--   Hystrix                   examples/hystrix/main.go: NewHystrix
--   Http                      examples/http/http.go: the HTTP middleware, over a parameter for
--                             net/http
--   ConcurrencyLimit/Limit    concurrencylimit/limit: limiter.go, static.go, and aimd.go in Aimd
--   ConcurrencyLimit/Policy   concurrencylimit/policy.go
--   ConcurrencyLimit/Limited  concurrencylimit/concurrencylimit.go: the runner over any limiter and
--                             executor, in Limited/Settings the defaults, and in
--                             Limited/Concurrent calls that overlap, over what an executor promises
--   ConcurrencyLimit/Queue    concurrencylimit/execute/queue.go: the policies and statistics, and in
--                             Queue/Dynamic the two goroutines as a step relation
--   ConcurrencyLimit/Workers  concurrencylimit/execute/executor.go: the stop channels of the worker
--                             pool, and in Workers/Goroutines the workers as a step relation
--   ConcurrencyLimit/Fifo     concurrencylimit/execute/fifo.go: one call as a step relation, and in
--                             Fifo/Pooled any number of calls with the workers
--   ConcurrencyLimit/Handshake  Execute of lifo.go and codel.go in concurrencylimit/execute: one call
--                             and its job as a step relation
--   ConcurrencyLimit/Queued   NewLIFO, NewAdaptiveLIFOCodel, Execute and fromQueueToWorkerPool of
--                             lifo.go and codel.go in concurrencylimit/execute: any number of calls
--                             with the queue, the goroutine that forwards and the workers
--   ConcurrencyLimit/Codel    the choice of policy and timeout in concurrencylimit/execute/codel.go
--   Float64                   Go's float64: a parameter, with the laws of IEEE 754 that are used
--   Tests                     concrete worlds, and the theorems at concrete inputs
-- The files below one of these hold its proofs and are named for what they prove.
--
-- Bounds: no definition runs on fuel; the loop of retry recurses on the attempts that are left. int
-- and time.Duration are integers that do not wrap, so results hold where no sum or product leaves
-- 64 bits: counters, the clock and the limits do not get there in the life of a program. Where a
-- float64 is made from a count, the count is bounded in the theorem, so that it is exact.
--
-- Not modelled: time that passes while goroutines wait: a timer may fire at any step. The Prometheus
-- client, net/http and the Go library are only called; the mocks are generated; what the main
-- functions of the examples run against random functions, on the clock, and print is left out.
pub mod Prelude
pub mod Errors
pub mod Runtime
pub mod Metrics
pub mod Runner
pub mod CircuitBreaker
pub mod Float64
pub mod Retry
pub mod Chaos
pub mod Timeout
pub mod Bulkhead
pub mod Failer
pub mod Hystrix
pub mod Http
pub mod ConcurrencyLimit
mod Tests
