-- ===== src/Metrics/Prometheus/Series.antt =====
-- Which series of the client a measurement of the Prometheus recorder changes.
use goresilience.Prelude.{
  ℕ, String, ◌≡◌, ◌≢◌, sym, ap, Option, none, some, List, ◌∷◌, length, get_elem?,
}
use goresilience.Prelude.Int.{ℤ}
use goresilience.Runtime.{Clock}
use goresilience.Float64.{Float64}
use goresilience.Metrics.{
  Measurement, command_execution, retry, timeout, bulkhead_queued, bulkhead_processed,
  bulkhead_timeout, circuitbreaker_state, chaos_injected_failure, inflight_executions,
  executing_executions, concurrency_limit_result, limiter_limit, queued_time,
}
use goresilience.Metrics.PrometheusClient.{Kind, Update, Client, ClientLaws, Desc}
use goresilience.Metrics.Prometheus.Registered.{described, metric_table}
use goresilience.Metrics.Prometheus.{PrometheusRec, with_id, collectors, measure}

module _ {W R F Series : Type 0} {V : Kind → Type 0} (fl : Float64 F) (cl : Client W R F V)
    (laws : ClientLaws cl Series) (clock : Clock W) (seconds : ℤ → F) where
  -- What a measurement under an id promises of a series.
  abbrev Separate : String → Option W → W → (k : Kind) → V k → String → List String → Type 0
  Separate id after w k x other rest =
      (w' : W) × (after ≡ some w')
      × (laws.series k x (other ∷ rest) w' ≡ laws.series k x (other ∷ rest) w)

  update-Separate :
      (k : Kind) (v : V k) (id : String) (values : List String) (u : Update F k) (w : W) (l : Kind)
      (x : V l) (other : String) (rest : List String)
      → length (id ∷ values) ≡ length (laws.desc k v).1
      → other ≢ id
      → Separate id (cl.update k v (id ∷ values) u w) w l x other rest
  update-Separate k v id values u w l x other rest fits apart =
      let done = laws.updates k v (id ∷ values) u w fits in
      (
        done.0,
        done.1,
        laws.series-update k l v (id ∷ values) u x (other ∷ rest) w done.0 done.1 (λ e. apart cc),
      )

  -- How many labels the metric in a place of the table has.
  abbrev label_count : ℕ → List Desc → ℕ
  label_count n ds = elim (get_elem? ds n) [ none ↦ 0 | some d ↦ length d.1 ]

  -- With a recorder that has the metrics of the table no measurement panics, whatever the id of the
  -- recorder is, and it leaves the series of every metric under another id as they were.
  pub measure-separate :
      (p : PrometheusRec R V) (id : String) (m : Measurement) (w : W) (k : Kind) (x : V k)
      (other : String) (rest : List String)
      → described fl cl laws p ≡ metric_table
      → other ≢ id
      → (w' : W) × (measure fl cl clock seconds (with_id p id) m w ≡ some w')
        × (laws.series k x (other ∷ rest) w' ≡ laws.series k x (other ∷ rest) w)
  unfolding measure with_id collectors
  measure-separate p id (command_execution start success) w k x other rest e h =
      update-Separate _ _ id _ _ w k x other rest (sym (ap (label_count 0) e)) h
  measure-separate p id retry w k x other rest e h =
      update-Separate _ _ id _ _ w k x other rest (sym (ap (label_count 1) e)) h
  measure-separate p id timeout w k x other rest e h =
      update-Separate _ _ id _ _ w k x other rest (sym (ap (label_count 2) e)) h
  measure-separate p id bulkhead_queued w k x other rest e h =
      update-Separate _ _ id _ _ w k x other rest (sym (ap (label_count 3) e)) h
  measure-separate p id bulkhead_processed w k x other rest e h =
      update-Separate _ _ id _ _ w k x other rest (sym (ap (label_count 4) e)) h
  measure-separate p id bulkhead_timeout w k x other rest e h =
      update-Separate _ _ id _ _ w k x other rest (sym (ap (label_count 5) e)) h
  measure-separate p id (circuitbreaker_state state) w k x other rest e h =
      update-Separate _ _ id _ _ w k x other rest (sym (ap (label_count 6) e)) h
  measure-separate p id (chaos_injected_failure kind) w k x other rest e h =
      update-Separate _ _ id _ _ w k x other rest (sym (ap (label_count 7) e)) h
  measure-separate p id (inflight_executions q) w k x other rest e h =
      update-Separate _ _ id _ _ w k x other rest (sym (ap (label_count 8) e)) h
  measure-separate p id (executing_executions q) w k x other rest e h =
      update-Separate _ _ id _ _ w k x other rest (sym (ap (label_count 9) e)) h
  measure-separate p id (concurrency_limit_result result) w k x other rest e h =
      update-Separate _ _ id _ _ w k x other rest (sym (ap (label_count 10) e)) h
  measure-separate p id (limiter_limit limit) w k x other rest e h =
      update-Separate _ _ id _ _ w k x other rest (sym (ap (label_count 11) e)) h
  measure-separate p id (queued_time start) w k x other rest e h =
      update-Separate _ _ id _ _ w k x other rest (sym (ap (label_count 12) e)) h
