-- ===== src/ConcurrencyLimit/Limit/Aimd/Samples.antt =====
-- The limit after a sample, and after a run of samples (aimd.go, MeasureSample).
use goresilience.Prelude.{
  ℕ, suc, ◌≤◌, ◌^◌, ◌≡◌, refl, Bool, true, false, ◌||◌, List, [], ◌∷◌, arith, if◌then◌else◌,
}
use goresilience.Prelude.Int.{ℤ, pos, ltb_ℤ}
use goresilience.Float64.{Float64}
use goresilience.ConcurrencyLimit.Limit.{Result, success, failure, ignore}
use goresilience.ConcurrencyLimit.Limit.Aimd.{
  AimdConfig, Aimd, defaults, new_aimd, get_limit, decrease_limit, increase_limit, sample,
}
use goresilience.ConcurrencyLimit.Limit.Aimd.Floor.{
  LimitLaws, IsBounded, decrease_limit_bounds, decrease_limit-IsBounded, increase_limit-IsBounded,
}

module _ {F : Type 0} (fl : Float64 F) (laws : LimitLaws fl) where
  -- A failure, or a success that took longer than the timeout.
  abbrev pub backs_off : ℤ → Result → Aimd F → Bool
  backs_off elapsed failure a = true
  backs_off elapsed success a = ltb_ℤ a.rtt_timeout elapsed
  backs_off elapsed ignore a = false

  abbrev pub moves : Bool → F → F → Bool
  moves true old new = fl.le new old
  moves false old new = fl.le old new

  -- What a sample promises of the returned value `r` and the new limiter `a'`.
  pub record Promise (m : ℕ) (down : Bool) (a : Aimd F) (r : ℤ × Aimd F) : Type 0 where
    pub bounded : IsBounded fl laws m r.1
    pub current : r.0 ≡ get_limit fl r.1
    pub moved : moves down a.limit r.1.limit ≡ true

  unchanged :
      {m : ℕ} {a : Aimd F} (down : Bool)
      → IsBounded fl laws m a
      → Promise m down a (fl.to_int a.limit, a)
  unfolding get_limit
  unchanged {a} down b = record { bounded = b; current = refl; moved = stays down }
    where
      stays : (d : Bool) → moves d a.limit a.limit ≡ true
      stays true = laws.number_right _ a.limit b.floor
      stays false = laws.number_right _ a.limit b.floor

  decreased :
      {m : ℕ} {a : Aimd F}
      → IsBounded fl laws m a
      → Promise m true a (fl.to_int (decrease_limit fl a).limit, decrease_limit fl a)
  unfolding get_limit
  decreased b = record {
    bounded = decrease_limit-IsBounded fl laws b;
    current = refl;
    moved = (decrease_limit_bounds fl laws b).1;
  }

  increased :
      {m : ℕ} {a : Aimd F}
      → IsBounded fl laws m a
      → Promise m false a (fl.to_int (increase_limit fl a).limit, increase_limit fl a)
  unfolding get_limit
  increased b = record {
    bounded = (increase_limit-IsBounded fl laws b).0;
    current = refl;
    moved = (increase_limit-IsBounded fl laws b).1;
  }

  succeeded :
      {m : ℕ} {a : Aimd F} (late more : Bool)
      → IsBounded fl laws m a
      → Promise m late a (
          if late
          then (fl.to_int (decrease_limit fl a).limit, decrease_limit fl a)
          else if more
          then (fl.to_int (increase_limit fl a).limit, increase_limit fl a)
          else (fl.to_int a.limit, a))
  succeeded true more b = decreased b
  succeeded false true b = increased b
  succeeded false false b = unchanged false b

  -- A sample returns the int of the new limit, whatever its result is; a failure or a late success
  -- does not raise the limit, any other sample does not lower it, and it stays at least the minimum:
  -- for a limiter whose minimum is positive and at most 2^53, whose ratio is between 1/2 and 1, and
  -- whose limit is at least the minimum.
  pub sample-Promise :
      (m : ℕ) (elapsed inflight : ℤ) (result : Result) (a : Aimd F)
      → IsBounded fl laws m a
      → Promise m (backs_off elapsed result a) a (sample fl elapsed inflight result a)
  unfolding sample
  sample-Promise m elapsed inflight success a b = succeeded _ _ b
  sample-Promise m elapsed inflight failure a b = decreased b
  sample-Promise m elapsed inflight ignore a b = unchanged false b

  -- A run of samples, each with its elapsed time and the executions in flight.
  unfoldable pub samples : List (ℤ × ℤ × Result) → Aimd F → Aimd F
  samples [] a = a
  samples ((elapsed, inflight, result) ∷ rest) a =
      samples rest (sample fl elapsed inflight result a).1

  samples-IsBounded :
      {m : ℕ} (xs : List (ℤ × ℤ × Result)) {a : Aimd F}
      → IsBounded fl laws m a
      → IsBounded fl laws m (samples xs a)
  unfolding samples
  samples-IsBounded [] b = b
  samples-IsBounded {m} ((elapsed, inflight, result) ∷ rest) {a} b =
      samples-IsBounded rest (sample-Promise m elapsed inflight result a b).bounded

  -- The ratio after `defaults` is between 1/2 and 1, if it is a number.
  ratio_cases :
      (r : F) (low high : Bool)
      → fl.le r r ≡ true
      → fl.lt r (fl.decimal 5 1) ≡ low
      → fl.lt (fl.of_int (pos 1)) r ≡ high
      → let s = if low || high then fl.decimal 9 1 else r in
        (fl.le (fl.decimal 5 1) s ≡ true) × (fl.le s (fl.of_int (pos 1)) ≡ true)
  ratio_cases r true high n e f = laws.half_nine
  ratio_cases r false true n e f = laws.half_nine
  ratio_cases r false false n e f = (
    laws.other_lt r (fl.decimal 5 1) n (laws.number_left _ _ laws.half_nine.0) e,
    laws.other_lt (fl.of_int (pos 1)) r (laws.number_right _ _ laws.half_nine.1) n f,
  )

  new_aimd-IsBounded :
      (m : ℕ) (cfg : AimdConfig F)
      → (defaults fl cfg).minimum_limit ≡ pos (suc m)
      → suc m ≤ 2 ^ 53
      → fl.le cfg.backoff_ratio cfg.backoff_ratio ≡ true
      → IsBounded fl laws m (new_aimd fl cfg)
  unfolding new_aimd
  new_aimd-IsBounded m cfg e small number =
      let bounds = ratio_cases cfg.backoff_ratio _ _ number refl refl in
      record {
        minimum = e;
        exact = small;
        half = bounds.0;
        whole = bounds.1;
        floor = rw e (laws.ints (suc m) (suc m) (omega arith) small);
      }

  -- After any run of samples the limit of a new limiter is at least its minimum, which is 10 where
  -- the configuration gives none, if the minimum is positive and at most 2^53 and the backoff ratio is
  -- not NaN.
  pub samples_floor :
      (m : ℕ) (cfg : AimdConfig F) (xs : List (ℤ × ℤ × Result))
      → (defaults fl cfg).minimum_limit ≡ pos (suc m)
      → suc m ≤ 2 ^ 53
      → fl.le cfg.backoff_ratio cfg.backoff_ratio ≡ true
      → fl.le (fl.of_int (pos (suc m))) (samples xs (new_aimd fl cfg)).limit ≡ true
  samples_floor m cfg xs e small number =
      (samples-IsBounded xs (new_aimd-IsBounded m cfg e small number)).floor
