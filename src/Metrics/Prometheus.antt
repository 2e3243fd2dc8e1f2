-- ===== src/Metrics/Prometheus.antt =====
-- metrics/prometheus.go: the recorder that measures with the Prometheus client. What it returns is
-- `none` where the client panics.
use goresilience.Prelude.{ℕ, String, Bool, true, false, Option, none, some, List, [], ◌∷◌}
use goresilience.Prelude.Int.{ℤ, pos, ◌-ℤ◌}
use goresilience.Runtime.{Effect, ◌>>=◌, return, Clock}
use goresilience.Float64.{Float64}
use goresilience.Metrics.{
  Measurement, command_execution, retry, timeout, bulkhead_queued, bulkhead_processed,
  bulkhead_timeout, circuitbreaker_state, chaos_injected_failure, inflight_executions,
  executing_executions, concurrency_limit_result, limiter_limit, queued_time,
}
use goresilience.Metrics.PrometheusClient.{
  Kind, counter, gauge, histogram, inc, set_to, observe_value, Opts, Collector, collector, Client,
}
pub mod Registered
pub mod Series

pub record PrometheusRec (R : Type 0) (V : Kind → Type 0) : Type 0 where
  pub cmd_execution_duration : V histogram
  pub retry_retries : V counter
  pub timeout_timeouts : V counter
  pub bulk_queued : V counter
  pub bulk_processed : V counter
  pub bulk_timeouts : V counter
  pub cb_state_changes : V counter
  pub chaos_failure_injections : V counter
  pub concurrency_limit_inflights : V gauge
  pub concurrency_limit_executing : V gauge
  pub concurrency_limit_result : V counter
  pub concurrency_limit_limit : V gauge
  pub concurrency_limit_queued_duration : V histogram
  pub id : String
  pub reg : R

module _ {R : Type 0} {V : Kind → Type 0} where
  unfoldable pub with_id : PrometheusRec R V → String → PrometheusRec R V
  with_id p id = record p { id = id }

  -- What is passed to `MustRegister`.
  unfoldable pub collectors : PrometheusRec R V → List (Collector V)
  collectors p =
      collector histogram p.cmd_execution_duration
      ∷ collector counter p.retry_retries
      ∷ collector counter p.timeout_timeouts
      ∷ collector counter p.bulk_queued
      ∷ collector counter p.bulk_processed
      ∷ collector counter p.bulk_timeouts
      ∷ collector counter p.cb_state_changes
      ∷ collector counter p.chaos_failure_injections
      ∷ collector gauge p.concurrency_limit_inflights
      ∷ collector gauge p.concurrency_limit_executing
      ∷ collector counter p.concurrency_limit_result
      ∷ collector gauge p.concurrency_limit_limit
      ∷ collector histogram p.concurrency_limit_queued_duration
      ∷ []

abbrev success_label : Bool → String
success_label true = "true"
success_label false = "false"

module _ {W R F : Type 0} {V : Kind → Type 0} (fl : Float64 F) (cl : Client W R F V) where
  -- The options of a metric without buckets.
  abbrev opts : String → String → String → Opts F
  opts subsystem name help = record {
    namespace = "goresilience";
    subsystem = subsystem;
    name = name;
    help = help;
    buckets = [];
  }

  abbrev queue_buckets : List F
  queue_buckets =
      fl.decimal 1 3
      ∷ fl.decimal 5 3
      ∷ fl.decimal 1 2
      ∷ fl.decimal 15 3
      ∷ fl.decimal 25 3
      ∷ fl.decimal 5 2
      ∷ fl.decimal 1 1
      ∷ fl.decimal 2 1
      ∷ fl.decimal 5 1
      ∷ fl.decimal 1 0
      ∷ fl.decimal 25 1
      ∷ fl.decimal 5 0
      ∷ fl.decimal 10 0
      ∷ []

  -- `registerMetrics` up to `MustRegister`, for a recorder without an id.
  unfoldable pub make_metrics : R → Effect W (PrometheusRec R V)
  make_metrics reg = do
    execution ←
        cl.new_vec histogram
          (record (opts "command" "execution_duration_seconds"
            "The duration of the command execution in seconds.") { buckets = cl.def_buckets })
          ("id" ∷ "success" ∷ [])
    retries ←
        cl.new_vec counter
          (opts "retry" "retries_total" "Total number of retries made by the retry runner.")
          ("id" ∷ [])
    timeouts ←
        cl.new_vec counter
          (opts "timeout" "timeouts_total" "Total number of timeouts made by the timeout runner.")
          ("id" ∷ [])
    queued ←
        cl.new_vec counter
          (opts "bulkhead" "queued_total"
            "Total number of queued funcs made by the bulkhead runner.")
          ("id" ∷ [])
    processed ←
        cl.new_vec counter
          (opts "bulkhead" "processed_total"
            "Total number of processed funcs made by the bulkhead runner.")
          ("id" ∷ [])
    waited ←
        cl.new_vec counter
          (opts "bulkhead" "timeouts_total"
            "Total number of timeouts funcs waiting for execution made by the bulkhead runner.")
          ("id" ∷ [])
    changes ←
        cl.new_vec counter
          (opts "circuitbreaker" "state_changes_total"
            "Total number of state changes made by the circuit breaker runner.")
          ("id" ∷ "state" ∷ [])
    injections ←
        cl.new_vec counter
          (opts "chaos" "failure_injections_total"
            "Total number of failure injectionsmade by the chaos runner.")
          ("id" ∷ "kind" ∷ [])
    inflights ←
        cl.new_vec gauge
          (opts "concurrencylimit" "inflight_executions"
            "The number of inflight executions, these are executing and queued.")
          ("id" ∷ [])
    executing ←
        cl.new_vec gauge
          (opts "concurrencylimit" "executing_executions" "The number of executing executions.")
          ("id" ∷ [])
    results ←
        cl.new_vec counter
          (opts "concurrencylimit" "result_total"
            "Total results of the executions measured by the limiter algorithm.")
          ("id" ∷ "result" ∷ [])
    limits ←
        cl.new_vec gauge
          (opts "concurrencylimit" "limiter_limit"
            "The concurrency limit measured and calculated by the limiter algorithm.")
          ("id" ∷ [])
    durations ←
        cl.new_vec histogram
          (record (opts "concurrencylimit" "queued_duration_seconds"
            "The duration of the command waiting on the queue.") { buckets = queue_buckets })
          ("id" ∷ [])
    return (record {
      cmd_execution_duration = execution;
      retry_retries = retries;
      timeout_timeouts = timeouts;
      bulk_queued = queued;
      bulk_processed = processed;
      bulk_timeouts = waited;
      cb_state_changes = changes;
      chaos_failure_injections = injections;
      concurrency_limit_inflights = inflights;
      concurrency_limit_executing = executing;
      concurrency_limit_result = results;
      concurrency_limit_limit = limits;
      concurrency_limit_queued_duration = durations;
      id = "";
      reg = reg;
    })

  unfoldable pub new_prometheus_recorder : R → W → Option (PrometheusRec R V × W)
  unfolding make_metrics collectors
  new_prometheus_recorder reg w =
      let r = make_metrics reg w in
      elim (cl.must_register reg (collectors r.0) r.1) [
        | none ↦ none
        | some registered ↦ some (r.0, registered)
      ]

-- `seconds` is `time.Duration.Seconds`.
module _ {W R F : Type 0} {V : Kind → Type 0} (fl : Float64 F) (cl : Client W R F V)
    (clock : Clock W) (seconds : ℤ → F) where
  abbrev since : ℕ → W → F
  since start w = seconds (pos (clock.now w) -ℤ pos start)

  -- One clause for each method.
  unfoldable pub measure : PrometheusRec R V → Measurement → W → Option W
  measure p (command_execution start success) w =
      cl.update histogram p.cmd_execution_duration (p.id ∷ success_label success ∷ [])
        (observe_value (since start w)) w
  measure p retry w = cl.update counter p.retry_retries (p.id ∷ []) inc w
  measure p timeout w = cl.update counter p.timeout_timeouts (p.id ∷ []) inc w
  measure p bulkhead_queued w = cl.update counter p.bulk_queued (p.id ∷ []) inc w
  measure p bulkhead_processed w = cl.update counter p.bulk_processed (p.id ∷ []) inc w
  measure p bulkhead_timeout w = cl.update counter p.bulk_timeouts (p.id ∷ []) inc w
  measure p (circuitbreaker_state state) w =
      cl.update counter p.cb_state_changes (p.id ∷ state ∷ []) inc w
  measure p (chaos_injected_failure kind) w =
      cl.update counter p.chaos_failure_injections (p.id ∷ kind ∷ []) inc w
  measure p (inflight_executions q) w =
      cl.update gauge p.concurrency_limit_inflights (p.id ∷ []) (set_to (fl.of_int q)) w
  measure p (executing_executions q) w =
      cl.update gauge p.concurrency_limit_executing (p.id ∷ []) (set_to (fl.of_int q)) w
  measure p (concurrency_limit_result result) w =
      cl.update counter p.concurrency_limit_result (p.id ∷ result ∷ []) inc w
  measure p (limiter_limit limit) w =
      cl.update gauge p.concurrency_limit_limit (p.id ∷ []) (set_to (fl.of_int limit)) w
  measure p (queued_time start) w =
      cl.update histogram p.concurrency_limit_queued_duration (p.id ∷ [])
        (observe_value (since start w)) w
