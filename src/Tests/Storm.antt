-- ===== src/Tests/Storm.antt =====
-- Calls of a chaos runner that overlap: a call sleeps while another one gets an injected error.
use goresilience.Prelude.{◌<◌, ◌≡◌, refl, some, arith}
use goresilience.Prelude.Int.{pos}
use goresilience.Prelude.Families.{tally}
use goresilience.Errors.{err_failure_injected}
use goresilience.Chaos.{Injector}
use goresilience.Chaos.Concurrent.{
  System, made, attack_latency, attack_error, set_latency, enter, look, wake, reckon, compare,
  leave, Steps, here, more,
}
use goresilience.Chaos.Concurrent.Counts.{Answer, has_returned, has_failed, Steps-counters}
use goresilience.Tests.Fraction.{fractions}

first : 0 < 2
first = omega arith

second : 1 < 2
second = omega arith

abbrev slow : Injector
slow = record { latency = pos 100; error_percent = pos 15 }

abbrev injected : (s : System) × Steps fractions 2 (made slow) s
unfolding attack_latency attack_error
injected =
    let s = more (more here (enter 0 first refl)) (look 0 first refl) in
    let s = more (more s (set_latency (pos 0))) (enter 1 second refl) in
    let s = more (more s (look 1 second refl)) (reckon 1 second refl) in
    let s = more (more s (compare 1 _ second refl)) (wake 0 first refl) in
    (_, more s (leave 1 (some err_failure_injected) second refl))

Steps-counters_example :
    Answer (injected.0.calls 1) (some err_failure_injected)
    × (injected.0.counters.total ≡ tally has_returned 2 injected.0.calls)
    × (injected.0.counters.errs ≡ tally has_failed 2 injected.0.calls)
unfolding injected
Steps-counters_example = Steps-counters fractions 2 1 (some err_failure_injected) injected.1 refl
