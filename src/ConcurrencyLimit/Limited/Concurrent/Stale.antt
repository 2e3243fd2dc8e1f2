-- ===== src/ConcurrencyLimit/Limited/Concurrent/Stale.antt =====
-- What overlapping calls of `Run` leave behind when they act on old values.
use goresilience.Prelude.{
  ℕ, ◌<◌, ◌≡◌, ◌≢◌, refl, ap, ◌∙◌, Option, none, some, List, [], ◌∷◌, length, arith,
}
use goresilience.Prelude.Int.{ℤ, pos, ◌-ℤ◌}
use goresilience.Errors.{Error}
use goresilience.Runtime.{Clock}
use goresilience.Metrics.{Measurement, inflight_executions}
use goresilience.ConcurrencyLimit.Limit.{Result, Limiter}
use goresilience.ConcurrencyLimit.Workers.{set_worker_quantity}
use goresilience.ConcurrencyLimit.Workers.Accounts.{IsAccounted, wanted, set_worker_quantity-lem}
use goresilience.ConcurrencyLimit.Limited.Concurrent.{
  answered, judging, sampling, returned, System, tell_sample, count_out, show_left, tell,
  show_limit, tune, Steps, here, more,
}

-- The last measured count of the executions in flight.
abbrev pub gauge : List Measurement → Option ℤ
gauge [] = none
gauge (inflight_executions n ∷ ms) = some n
gauge (m ∷ ms) = gauge ms

module _ {W : Type 0} (clock : Clock W) (limiter : Limiter W) (policy : ℕ → Option Error → Result)
    (calls : ℕ) where
  -- Two calls may count themselves out in one order and measure in the other: then the last measured count of
  -- the executions in flight is one too high, and neither of them will measure it again.
  pub stale_gauge :
      (s : System W) (c d : ℕ) (e g : Option Error)
      → c < calls
      → d < calls
      → c ≢ d
      → (s.calls c).caller ≡ answered e
      → (s.calls d).caller ≡ answered g
      → (t : System W) × Steps clock limiter policy calls s t
        × (t.inflights ≡ s.inflights -ℤ pos 1 -ℤ pos 1)
        × (gauge t.measured ≡ some (s.inflights -ℤ pos 1))
        × ((t.calls c).caller ≡ judging e (s.inflights -ℤ pos 1))
        × ((t.calls d).caller ≡ judging g (s.inflights -ℤ pos 1 -ℤ pos 1))
  stale_gauge s c d e g lc ld apart at_c at_d =
      let n = s.inflights -ℤ pos 1 in
      let a = more here (count_out c e lc at_c) in
      let b = more a (count_out d g ld (ground (arith, at_d))) in
      let b = more b (show_left d g (n -ℤ pos 1) ld (ground arith)) in
      let b = more b (show_left c e n lc (ground arith)) in
      (_, b, refl, refl, ground arith, ground arith)

  -- Two different calls may ask the limiter in one order and set the worker quantity in the other: then
  -- both have returned, the limiter has learnt both samples, and the workers are as many as it answered
  -- to the first one, if that is not negative, whatever it answered to the second one, its latest
  -- answer. The accounts of the pool are taken to be in order.
  pub stale_limit :
      (s : System W) (c d : ℕ) (e g : Option Error) (n m : ℤ) (r v : Result) (quantity : ℕ)
      → c < calls
      → d < calls
      → c ≢ d
      → (s.calls c).caller ≡ sampling e n r
      → (s.calls d).caller ≡ sampling g m v
      → IsAccounted s.pool
      → let first =
          limiter.measure_sample (s.calls c).start (s.calls c).queued_duration n r s.world in
        let latest =
          limiter.measure_sample (s.calls d).start (s.calls d).queued_duration m v first.1 in
        first.0 ≡ pos quantity
        → (t : System W) × Steps clock limiter policy calls s t
          × (t.world ≡ latest.1)
          × (length t.pool.worker_stoppers ≡ quantity)
          × ((t.calls c).caller ≡ returned e)
          × ((t.calls d).caller ≡ returned g)
  unfolding tell_sample
  stale_limit s c d e g n m r v quantity lc ld apart at_c at_d kept answer =
      let first =
        limiter.measure_sample (s.calls c).start (s.calls c).queued_duration n r s.world in
      let u = tell_sample clock limiter policy calls c e n r s in
      let latest =
        limiter.measure_sample (u.calls d).start (u.calls d).queued_duration m v first.1 in
      let same : u.calls d ≡ s.calls d = ground arith in
      let (once, size) = set_worker_quantity-lem latest.0 s.pool kept in
      let a = more here (tell c e n r lc at_c) in
      let b = more a (tell d g m v ld (ground (arith, at_d))) in
      let b = more b (show_limit d g latest.0 ld (ground arith)) in
      let b = more b (tune d g latest.0 ld (ground arith)) in
      let b = more b (show_limit c e first.0 lc (ground arith)) in
      let b = more b (tune c e first.0 lc (ground arith)) in
      (
        _,
        b,
        ap (λ q. (limiter.measure_sample q.start q.queued_duration m v first.1).1) same,
        (set_worker_quantity-lem first.0 (set_worker_quantity latest.0 s.pool) once).1
            ∙ ap (λ q. wanted q (length (set_worker_quantity latest.0 s.pool).worker_stoppers))
                answer,
        ground arith,
        ground arith,
      )
