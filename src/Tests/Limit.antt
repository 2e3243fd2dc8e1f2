-- ===== src/Tests/Limit.antt =====
-- The AIMD limiter with the default ratio, and the failure policies.
use goresilience.Prelude.{ℕ, ◌≡◌, refl, List, [], ◌∷◌, true, arith}
use goresilience.Prelude.Int.{ℤ, pos}
use goresilience.ConcurrencyLimit.Limit.{Result, success, failure, ignore}
use goresilience.ConcurrencyLimit.Limit.Aimd.{AimdConfig, Aimd, sample, decrease_limit}
use goresilience.ConcurrencyLimit.Limit.Aimd.Floor.{IsBounded}
use goresilience.ConcurrencyLimit.Limit.Aimd.Samples.{Promise, sample-Promise}
use goresilience.Tests.Thousandths.{thousandths, thousandths-LimitLaws}

abbrev config : AimdConfig ℕ
config = record {
  minimum_limit = pos 0;
  slow_start_threshold = pos 20;
  rtt_timeout = pos 0;
  backoff_ratio = 0;
  limit_increment_inflight_factor = pos 0;
}

abbrev pub at_limit : ℕ → Aimd ℕ
at_limit limit = record {
  cfg = record {
    minimum_limit = pos 10;
    slow_start_threshold = pos 20;
    rtt_timeout = pos 2_000_000_000;
    backoff_ratio = 900;
    limit_increment_inflight_factor = pos 1;
  };
  limit = limit;
}

fourteen-IsBounded : IsBounded thousandths thousandths-LimitLaws 9 (at_limit 14_000)
fourteen-IsBounded = record {
  minimum = refl;
  exact = omega arith;
  half = refl;
  whole = refl;
  floor = refl;
}

-- A failure lowers the limit from 14 to 12.6.
lowered : sample thousandths (pos 5) (pos 3) failure (at_limit 14_000) ≡ (pos 12, at_limit 12_600)
unfolding sample decrease_limit
lowered = refl

sample-Promise_example :
    Promise thousandths thousandths-LimitLaws 9 true
      (at_limit 14_000)
      (sample thousandths (pos 5) (pos 3) failure (at_limit 14_000))
sample-Promise_example =
    sample-Promise thousandths thousandths-LimitLaws 9 (pos 5) (pos 3) failure (at_limit 14_000)
      fourteen-IsBounded

abbrev run : List (ℤ × ℤ × Result)
run =
    (pos 5, pos 11, success)
    ∷ (pos 5, pos 0, failure)
    ∷ (pos 3_000_000_000, pos 12, success)
    ∷ (pos 1, pos 1, ignore)
    ∷ []
