-- ===== src/Tests.antt =====
-- Concrete worlds, and the theorems at concrete inputs.
mod World
mod Fraction
mod Prometheus
mod Runner
mod Window
mod CircuitBreaker
mod Overlap
mod Pipeline
mod Failer
mod Fifo
mod Flights
mod Retry
mod Chaos
mod Storm
mod Thousandths
mod Limit
mod Examples
mod Execute
mod Executors
mod Limited
mod Timeout
mod Bulkhead
