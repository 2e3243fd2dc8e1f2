-- ===== src/ConcurrencyLimit/Codel.antt =====
-- concurrencylimit/execute/codel.go: how a call of the adaptive LIFO and CoDel executor chooses the
-- policy of the queue and its own timeout. What follows in `Execute` is in Handshake.
use goresilience.Prelude.{ℕ, Bool, true, false, if◌then◌else◌}
use goresilience.Prelude.Int.{ℤ, pos, ltb_ℤ, eqb_ℤ}
use goresilience.ConcurrencyLimit.Queue.{QueueStats, since_last_empty}
use goresilience.ConcurrencyLimit.Queue.Dynamic.{Policy, fifo, lifo}
pub mod Busy

pub record AdaptiveLifoCodelConfig : Type 0 where
  pub codel_target_delay : ℤ
  pub codel_interval : ℤ

unfoldable pub defaults : AdaptiveLifoCodelConfig → AdaptiveLifoCodelConfig
defaults c = record {
  codel_target_delay =
      if eqb_ℤ c.codel_target_delay (pos 0) then pos 5_000_000 else c.codel_target_delay;
  codel_interval = if eqb_ℤ c.codel_interval (pos 0) then pos 100_000_000 else c.codel_interval;
}

module _ (cfg : AdaptiveLifoCodelConfig) where
  -- `SinceLastEmpty` writes to the statistics.
  unfoldable pub queue_congested : ℕ → QueueStats → Bool × QueueStats
  queue_congested now q = let r = since_last_empty now q in (ltb_ℤ cfg.codel_interval r.0, r.1)

  -- The policy that is set, and the timeout.
  unfoldable pub adapt : ℕ → QueueStats → Policy × ℤ × QueueStats
  unfolding queue_congested
  adapt now q =
      let r = queue_congested now q in
      if r.0 then (lifo, cfg.codel_target_delay, r.1) else (fifo, cfg.codel_interval, r.1)
