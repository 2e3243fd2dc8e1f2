-- ===== src/CircuitBreaker/Concurrent.antt =====
-- circuitbreaker/circuitbreaker.go: calls of `Run` that overlap, as steps in any order. A step is what
-- a goroutine does between two locks: a method that locks, and the choice by what it has read. What
-- `moveState` does is one step, since nothing that others do between its writes sees or changes both
-- the state and the window. Time, and the ticks of the window, may pass at any step.
use native.Mathlib.Nat.{le_refl}
use goresilience.Prelude.{
  ℕ, ◌+◌, ◌≡◌, refl, Bool, true, false, Option, none, some, List, [], ◌∷◌, if◌then◌else◌,
}
use goresilience.Prelude.Int.{ℤ, pos, ltb_ℤ}
use goresilience.Prelude.Families.{write}
use goresilience.Errors.{Error, err_circuit_open}
use goresilience.Runtime.{Cell, Clock}
use goresilience.Metrics.{Measurement, Recorder, measuring}
use goresilience.Float64.{Float64}
use goresilience.CircuitBreaker.Window.{BucketWindow, inc, slide}
use goresilience.CircuitBreaker.{
  State, state_open, state_half_open, state_closed, CircuitBreaker, move_state, since_state_start,
  error_rate, enough_requests,
}
pub mod Returned
pub mod Changes
pub mod Moves
pub mod Stale
pub mod Sound

-- Where the goroutine of a call of `Run` stands.
pub data Caller : Type 0 where
  outside : Caller  -- `Run` is not called yet
  waiting : Caller  -- before `sinceStateStart`
  half_opening : Caller  -- before `moveState(stateHalfOpen)`
  executing : Caller  -- before the `getState` of `execute`
  running : Caller  -- in the next runner
  executed : Option Error → Caller  -- before `recorder.inc`
  recorded : Option Error → Caller  -- before the `getState` of `postDecideState`
  totalling : State → Option Error → Caller  -- before `totalRequests`, in a case of the `switch`
  rating : State → Option Error → Caller  -- before `errorRate`
  moving : State → Option Error → Caller  -- before `moveState`
  returned : Option Error → Caller

pub record Call : Type 0 where
  pub caller : Caller
  pub outcomes : List (Option Error)  -- what its runs of the next runner have returned

pub record System : Type 0 where
  pub calls : ℕ → Call
  pub breaker : CircuitBreaker
  pub now : ℕ
  pub changes : List Measurement  -- what the recorder has measured, the last one first

abbrev pub not_called : Call
not_called = record { caller = outside; outcomes = [] }

-- A breaker of which `Run` has not been called.
abbrev pub made : CircuitBreaker → ℕ → System
made b now = record { calls = λ c. not_called; breaker = b; now = now; changes = [] }

abbrev pub own : Cell System CircuitBreaker
own = record {
  get = λ s. s.breaker;
  put = λ b s. record s { breaker = b };
  get-put = λ b s. refl;
  put-put = λ a b s. refl;
}

abbrev pub clock : Clock System
clock = record {
  now = λ s. s.now;
  sleep = λ d s. record s { now = s.now + d };
  sleep_lasts = λ d s. le_refl (s.now + d);
}

abbrev pub rec : Recorder System
rec = measuring (λ id m s. record s { changes = m ∷ s.changes }) ""

abbrev pub stand : ℕ → Caller → System → System
stand c at s = record s { calls = write s.calls c (record (s.calls c) { caller = at }) }

-- The `switch` of `preDecideState`, of `execute` and of `postDecideState`, on the state that was read.
unfoldable pub after_pre : State → Caller
after_pre state_open = waiting
after_pre _ = executing

unfoldable pub after_execute : State → Caller
after_execute state_open = executed (some err_circuit_open)
after_execute _ = running

unfoldable pub after_post : State → Option Error → Caller
after_post state_open err = returned err
after_post st err = totalling st err

-- The requests that `postDecideState` asks for.
unfoldable pub required : State → CircuitBreaker → ℤ
required state_half_open b = b.successful_required_on_half_open
required _ b = b.minimum_request_to_open

module _ {F : Type 0} (fl : Float64 F) where
  -- What follows `errorRate`.
  unfoldable pub after_rate : State → Option Error → CircuitBreaker → Caller
  after_rate state_half_open err b =
      moving
        (if fl.le (error_rate fl clock own b.recorder) (fl.of_int (pos 0))
          then state_closed
          else state_open)
        err
  after_rate _ err b =
      if fl.le (fl.div (fl.of_int b.error_percent_threshold_to_open) (fl.of_int (pos 100)))
        (error_rate fl clock own b.recorder)
      then moving state_open err
      else returned err

  unfoldable pub move : State → System → System
  move st s = move_state fl clock own st rec s

  pub data Step (s : System) : System → Type 0 where
    pass : (d : ℕ) → Step s (record s { now = s.now + d })
    tick :
        (b : BucketWindow)
        → slide s.breaker.recorder ≡ some b
        → Step s (record s { breaker = record s.breaker { recorder = b } })
    enter : (c : ℕ) → (s.calls c).caller ≡ outside → Step s (stand c (after_pre s.breaker.state) s)
    look :
        (c : ℕ)
        → (s.calls c).caller ≡ waiting
        → Step s (
            stand c
              (if ltb_ℤ s.breaker.wait_duration_in_open_state (since_state_start fl clock own s)
                then half_opening
                else executing)
              s)
    half_open :
        (c : ℕ)
        → (s.calls c).caller ≡ half_opening
        → Step s (stand c executing (move state_half_open s))
    choose :
        (c : ℕ)
        → (s.calls c).caller ≡ executing
        → Step s (stand c (after_execute s.breaker.state) s)
    finish :
        (c : ℕ) (err : Option Error)
        → (s.calls c).caller ≡ running
        → Step s (record s {
          calls =
              write s.calls c
                (record { caller = executed err; outcomes = err ∷ (s.calls c).outcomes });
        })
    record_result :
        (c : ℕ) (err : Option Error)
        → (s.calls c).caller ≡ executed err
        → Step s (
            stand c
              (recorded err)
              (record s { breaker = record s.breaker { recorder = inc err s.breaker.recorder } }))
    evaluate :
        (c : ℕ) (err : Option Error)
        → (s.calls c).caller ≡ recorded err
        → Step s (stand c (after_post s.breaker.state err) s)
    total :
        (c : ℕ) (st : State) (err : Option Error)
        → (s.calls c).caller ≡ totalling st err
        → Step s (
            stand c
              (if enough_requests fl clock own s.breaker.recorder (required st s.breaker)
                then rating st err
                else returned err)
              s)
    rate :
        (c : ℕ) (st : State) (err : Option Error)
        → (s.calls c).caller ≡ rating st err
        → Step s (stand c (after_rate st err s.breaker) s)
    move_on :
        (c : ℕ) (st : State) (err : Option Error)
        → (s.calls c).caller ≡ moving st err
        → Step s (stand c (returned err) (move st s))

  -- Any further steps.
  pub data Steps (s : System) : System → Type 0 where
    here : Steps s s
    more : {t u : System} → Steps s t → Step t u → Steps s u
