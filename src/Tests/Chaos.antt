-- ===== src/Tests/Chaos.antt =====
-- The chaos runner on a world that holds its injector and its counters.
use native.Mathlib.Nat.{div-lt_iff_lt-mul, le-div_iff_mul-le, zero-div}
use goresilience.Prelude.{
  ℕ, leb, ◌==◌, true, false, zero, ltb→lt, sym, ap, ◌∙◌, none, ◌-◌, suc, ◌+◌, ◌*◌, ◌/◌, ◌≤◌, ◌<◌,
  ◌≡◌, refl, [], arith, ltb, some,
}
use goresilience.Prelude.Int.{pos, ltb_ℤ}
use goresilience.Errors.{err_failure_injected}
use goresilience.Runtime.{Cell}
use goresilience.Metrics.{recorder_from_context}
use goresilience.Runner.{Func, command}
use goresilience.Chaos.{Injector, FailureInjector, inject_latency, current_err_perc, run}
use goresilience.Chaos.Ratio.{PercentLaws, IsNear, IsSteady, calls, calls-IsNear}
use goresilience.Chaos.First.{run-first_injects}
use goresilience.Tests.World.{World, clock, background}
use goresilience.Tests.Fraction.{fractions}

truncate-whole :
    (p m d n k : ℕ)
    → p ≡ n
    → m ≡ 0
    → d ≡ suc k
    → fractions.to_int (record { plus = p; minus = m; den = d }) ≡ pos (n / suc k)
truncate-whole p m d n k e f g =
    let none_below : 0 - n ≡ 0 = omega arith in
    let all : n - 0 ≡ n = omega arith in
    let some_parts : (suc k == 0) ≡ false = ground arith in
    let above : leb 0 (n / suc k) ≡ true = ground arith in
    let whole : n / suc k - 0 ≡ n / suc k = omega arith in
    rw (e, f, g) (rw (none_below, zero-div (suc k), all) (rw (some_parts, above, whole) refl))

percent-value : (e t : ℕ) → 0 < t → current_err_perc fractions e t ≡ pos (100 * e / t)
percent-value e zero h = ground arith
percent-value e (suc t) h =
    let not_less : leb 0 (suc t) ≡ true = ground arith in
    rw not_less (
      truncate-whole (e * 1 * 100 + 0 * 1 * 0) (e * 1 * 0 + 0 * 1 * 100) (1 * (suc t - 0) * 1)
        (100 * e) t (omega arith) (omega arith) (omega arith))

percent-ltb :
    (p e t : ℕ) → 0 < t → ltb_ℤ (current_err_perc fractions e t) (pos p) ≡ ltb (100 * e / t) p
percent-ltb p e t h =
    ap (λ x. ltb_ℤ x (pos p)) (percent-value e t h)
    ∙ ap (λ n. ltb n (p + 0)) (omega arith)
    ∙ ap (ltb (100 * e / t)) (omega arith)

fractions-PercentLaws : PercentLaws fractions
fractions-PercentLaws = record {
  below = λ p e t _ _ h _ hit.
      let small = ltb→lt (100 * e / t) p (sym (percent-ltb p e t h) ∙ hit) in
      let less = (div-lt_iff_lt-mul h).0 small in omega (arith, less);
  not_below = λ p e t _ _ h _ miss.
      let more : p ≤ 100 * e / t = ground (arith, sym (percent-ltb p e t h) ∙ miss) in
      let all = (le-div_iff_mul-le h).0 more in omega (arith, all);
}

abbrev injecting : ℕ → World (Injector × FailureInjector)
injecting p = record {
  time = 0;
  own = (record { latency = pos 3; error_percent = pos p }, record { total = 0; errs = 0 });
  log = [];
}

abbrev injector_cell : Cell (World (Injector × FailureInjector)) Injector
injector_cell = record {
  get = λ w. w.own.0;
  put = λ i w. record w { own = (i, w.own.1) };
  get-put = λ a w. refl;
  put-put = λ a b w. refl;
}

abbrev counters : Cell (World (Injector × FailureInjector)) FailureInjector
counters = record {
  get = λ w. w.own.1;
  put = λ c w. record w { own = (w.own.0, c) };
  get-put = λ a w. refl;
  put-put = λ a b w. refl;
}

abbrev succeeds : Func (World (Injector × FailureInjector))
succeeds ctx w = (none, w)

steady : IsSteady fractions clock injector_cell counters command background succeeds
unfolding command recorder_from_context
steady = record {
  succeeds = λ w. refl;
  runner_keeps = λ w. (refl, refl);
  recorder_keeps = λ m w. (refl, refl);
  sleep_keeps = λ d w. (refl, refl);
  apart = λ c w. refl;
}

-- Ten calls at 25 percent: three errors.
calls-IsNear_example :
    let c =
      (calls fractions clock injector_cell counters command background succeeds 10
        (injecting 25)).own.1 in
    (c.total ≡ 10) × IsNear 25 c
calls-IsNear_example =
    calls-IsNear fractions clock injector_cell counters command background succeeds steady
      fractions-PercentLaws (omega arith) 10 (injecting 25) (omega arith) refl refl

run-first_injects_example :
    (run fractions clock injector_cell counters command background succeeds (injecting 0)).0
    ≡ some err_failure_injected
unfolding inject_latency recorder_from_context
run-first_injects_example =
    run-first_injects fractions clock injector_cell counters command background succeeds 0
      (injecting 0) refl refl refl
