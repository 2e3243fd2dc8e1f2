-- ===== src/ConcurrencyLimit.antt =====
-- concurrencylimit/: the adaptive runner, its limiters, its result policies.
pub mod Limit
pub mod Policy
pub mod Queue
pub mod Workers
pub mod Limited
pub mod Fifo
pub mod Handshake
pub mod Codel
pub mod Queued
