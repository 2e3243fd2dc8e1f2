-- ===== src/Chaos/Concurrent.antt =====
-- chaos/inject.go: calls of `Run` that overlap, as steps in any order, while a user changes the injector.
-- What is done under the lock of the counters is one step; the fields of the injector are read without its
-- lock, each in a step of its own. Time is not modelled: a sleep may end at any step.
use goresilience.Prelude.{ℕ, ◌+◌, ◌<◌, ◌≡◌, Option, none, some, List, [], ◌∷◌, if◌then◌else◌}
use goresilience.Prelude.Int.{ℤ, pos, ltb_ℤ, ◌≤ℤ◌}
use goresilience.Prelude.Families.{write}
use goresilience.Errors.{Error, err_failure_injected, is_nil}
use goresilience.Metrics.{Measurement, chaos_injected_failure}
use goresilience.Float64.{Float64}
use goresilience.Chaos.{Injector, FailureInjector, current_err_perc}
pub mod Counts

-- Where the goroutine of a call of `Run` stands.
pub data Caller : Type 0 where
  outside : Caller  -- `Run` is not called yet
  entered : Caller  -- before the latency is read
  sleeping : Caller
  reckoning : Caller  -- before the lock for the percentage
  comparing : ℤ → Caller  -- before the error percent is read
  running : Caller  -- in the next runner
  leaving : Option Error → Caller  -- before the lock of the deferred function
  returned : Option Error → Caller

pub record Call : Type 0 where
  pub caller : Caller
  pub outcomes : List (Option Error)  -- what its runs of the next runner have returned

pub record System : Type 0 where
  pub calls : ℕ → Call
  pub injector : Injector
  pub counters : FailureInjector
  pub measured : List Measurement  -- the last one first

abbrev pub not_called : Call
not_called = record { caller = outside; outcomes = [] }

-- The new runner.
abbrev pub made : Injector → System
made i = record {
  calls = λ c. not_called;
  injector = i;
  counters = record { total = 0; errs = 0 };
  measured = [];
}

abbrev pub stand : ℕ → Caller → System → System
stand c at s = record s { calls = write s.calls c (record (s.calls c) { caller = at }) }

-- The two attacks, by what was read.
unfoldable pub attack_latency : ℕ → System → System
attack_latency c s =
    if ltb_ℤ (pos 0) s.injector.latency
    then record (stand c sleeping s) { measured = chaos_injected_failure "latency" ∷ s.measured }
    else stand c reckoning s

unfoldable pub attack_error : ℕ → ℤ → System → System
attack_error c percentage s =
    if ltb_ℤ percentage s.injector.error_percent
    then record (stand c (leaving (some err_failure_injected)) s) {
      measured = chaos_injected_failure "error" ∷ s.measured;
    }
    else stand c running s

-- The deferred function.
abbrev pub counting : Option Error → FailureInjector → FailureInjector
counting err k = record { total = k.total + 1; errs = if is_nil err then k.errs else k.errs + 1 }

-- `calls` bounds the numbers of the calls.
module _ {F : Type 0} (fl : Float64 F) (calls : ℕ) where
  pub data Step (s : System) : System → Type 0 where
    set_latency : (t : ℤ) → Step s (record s { injector = record s.injector { latency = t } })
    set_error_percent :
        (percent : ℤ)
        → pos 0 ≤ℤ percent
        → percent ≤ℤ pos 100
        → Step s (record s { injector = record s.injector { error_percent = percent } })
    enter : (c : ℕ) → c < calls → (s.calls c).caller ≡ outside → Step s (stand c entered s)
    look : (c : ℕ) → c < calls → (s.calls c).caller ≡ entered → Step s (attack_latency c s)
    wake : (c : ℕ) → c < calls → (s.calls c).caller ≡ sleeping → Step s (stand c reckoning s)
    reckon :
        (c : ℕ)
        → c < calls
        → (s.calls c).caller ≡ reckoning
        → Step s (stand c (comparing (current_err_perc fl s.counters.errs s.counters.total)) s)
    compare :
        (c : ℕ) (percentage : ℤ)
        → c < calls
        → (s.calls c).caller ≡ comparing percentage
        → Step s (attack_error c percentage s)
    run :
        (c : ℕ) (err : Option Error)
        → c < calls
        → (s.calls c).caller ≡ running
        → Step s (record s {
          calls =
              write s.calls c
                (record { caller = leaving err; outcomes = err ∷ (s.calls c).outcomes });
        })
    leave :
        (c : ℕ) (err : Option Error)
        → c < calls
        → (s.calls c).caller ≡ leaving err
        → Step s (record (stand c (returned err) s) { counters = counting err s.counters })

  -- Any further steps.
  pub data Steps (s : System) : System → Type 0 where
    here : Steps s s
    more : {t u : System} → Steps s t → Step t u → Steps s u
