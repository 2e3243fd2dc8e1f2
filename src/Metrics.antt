-- ===== src/Metrics.antt =====
-- metrics/: the recorder interface, the dummy recorder, and the recorder that a context carries.
use goresilience.Prelude.{ℕ, String, Bool, true, false, Option, none, some}
use goresilience.Prelude.Int.{ℤ}
pub mod PrometheusClient
pub mod Prometheus

-- One constructor for each method of `metrics.Recorder` that measures.
pub data Measurement : Type 0 where
  command_execution : (start : ℕ) → (success : Bool) → Measurement
  retry : Measurement
  timeout : Measurement
  bulkhead_queued : Measurement
  bulkhead_processed : Measurement
  bulkhead_timeout : Measurement
  circuitbreaker_state : (state : String) → Measurement
  chaos_injected_failure : (kind : String) → Measurement
  inflight_executions : (q : ℤ) → Measurement
  executing_executions : (q : ℤ) → Measurement
  concurrency_limit_result : (result : String) → Measurement
  limiter_limit : (limit : ℤ) → Measurement
  queued_time : (start : ℕ) → Measurement

-- A recorder is the dummy, or one that measures under an id, as `prometheusRec` does.
pub data Recorder (W : Type 0) : Type 0 where
  dummy : Recorder W
  measuring : (String → Measurement → W → W) → String → Recorder W

module _ {W : Type 0} where
  abbrev pub with_id : Recorder W → String → Recorder W
  with_id dummy id = dummy
  with_id (measuring f old) id = measuring f id

  abbrev pub observe : Recorder W → Measurement → W → W
  observe dummy m w = w
  observe (measuring f id) m w = f id m w

-- What the library uses of a `context.Context`: whether `Done` is closed, and the recorder that
-- `Value` finds under `ctxRecorderKey`.
pub record Context (W : Type 0) : Type 0 where
  pub done : W → Bool
  pub recorder : Option (Recorder W)

module _ {W : Type 0} where
  -- The recorder, and whether the context had one.
  unfoldable pub recorder_from_context : Context W → Recorder W × Bool
  recorder_from_context ctx = elim ctx.recorder [ none ↦ (dummy, false) | some rec ↦ (rec, true) ]

  unfoldable pub set_recorder_on_context : Context W → Recorder W → Context W
  set_recorder_on_context ctx r = record ctx { recorder = some r }
