-- ===== src/Metrics/Prometheus/Registered.antt =====
-- The metrics of the Prometheus recorder, and what a registry does with them.
use mathlib.Core.Path.{subst}
use goresilience.Prelude.{
  String, ◌≡◌, refl, sym, ap, ◌∙◌, true, false, Option, none, some, List, [], ◌∷◌, ◌++◌, map,
}
use goresilience.Float64.{Float64}
use goresilience.Metrics.PrometheusClient.{
  Kind, Collector, Client, ClientLaws, Desc, names, distinct, disjoint, all_valid, of_collector,
}
use goresilience.Metrics.Prometheus.{
  PrometheusRec, collectors, make_metrics, new_prometheus_recorder,
}

-- The metrics as a dashboard finds them: the whole names, and the labels.
abbrev pub metric_table : List Desc
metric_table =
    ("goresilience_command_execution_duration_seconds", "id" ∷ "success" ∷ [])
    ∷ ("goresilience_retry_retries_total", "id" ∷ [])
    ∷ ("goresilience_timeout_timeouts_total", "id" ∷ [])
    ∷ ("goresilience_bulkhead_queued_total", "id" ∷ [])
    ∷ ("goresilience_bulkhead_processed_total", "id" ∷ [])
    ∷ ("goresilience_bulkhead_timeouts_total", "id" ∷ [])
    ∷ ("goresilience_circuitbreaker_state_changes_total", "id" ∷ "state" ∷ [])
    ∷ ("goresilience_chaos_failure_injections_total", "id" ∷ "kind" ∷ [])
    ∷ ("goresilience_concurrencylimit_inflight_executions", "id" ∷ [])
    ∷ ("goresilience_concurrencylimit_executing_executions", "id" ∷ [])
    ∷ ("goresilience_concurrencylimit_result_total", "id" ∷ "result" ∷ [])
    ∷ ("goresilience_concurrencylimit_limiter_limit", "id" ∷ [])
    ∷ ("goresilience_concurrencylimit_queued_duration_seconds", "id" ∷ [])
    ∷ []

module _ {W R F Series : Type 0} {V : Kind → Type 0} (fl : Float64 F) (cl : Client W R F V)
    (laws : ClientLaws cl Series) where
  abbrev pub described : PrometheusRec R V → List Desc
  described p = map (of_collector laws.desc) (collectors p)

  pub make_metrics-described :
      (reg : R) (w : W) → described (make_metrics fl cl reg w).0 ≡ metric_table
  unfolding make_metrics collectors
  make_metrics-described reg w = simp (laws.desc-new_vec)

  registered-make_metrics :
      (reg : R) (w : W) → laws.registered reg (make_metrics fl cl reg w).1 ≡ laws.registered reg w
  unfolding make_metrics
  registered-make_metrics reg w = simp (laws.registered-new_vec)

  -- The laws of the registry, for metrics of which the descriptions are known.
  registers_as :
      (reg : R) (vs : List (Collector V)) (w : W) (ds : List Desc)
      → map (of_collector laws.desc) vs ≡ ds
      → all_valid laws.is_valid ds ≡ true
      → distinct (names ds) ≡ true
      → disjoint (names ds) (laws.registered reg w) ≡ true
      → (w' : W) × (cl.must_register reg vs w ≡ some w')
        × (laws.registered reg w' ≡ names ds ++ laws.registered reg w)
  registers_as reg vs w ds e =
      subst
        (λ cs.
          all_valid laws.is_valid cs ≡ true
          → distinct (names cs) ≡ true
          → disjoint (names cs) (laws.registered reg w) ≡ true
          → (w' : W) × (cl.must_register reg vs w ≡ some w')
            × (laws.registered reg w' ≡ names cs ++ laws.registered reg w))
        e (laws.registers reg vs w)

  refuses_as :
      (reg : R) (vs : List (Collector V)) (w : W) (ds : List Desc) (taken : List String)
      → map (of_collector laws.desc) vs ≡ ds
      → laws.registered reg w ≡ taken
      → disjoint (names ds) taken ≡ false
      → cl.must_register reg vs w ≡ none
  refuses_as reg vs w ds taken e f h = laws.refuses reg vs w (
      subst (λ cs. disjoint (names cs) (laws.registered reg w) ≡ false) (sym e)
        (subst (λ ns. disjoint (names ds) ns ≡ false) (sym f) h))

  created :
      (reg : R) (w : W) (o : Option W)
      → let r = make_metrics fl cl reg w in
        cl.must_register reg (collectors r.0) r.1 ≡ o
        → new_prometheus_recorder fl cl reg w ≡ elim o [ none ↦ none | some w' ↦ some (r.0, w') ]
  unfolding new_prometheus_recorder
  created reg w o h =
      ap (λ o. elim o [ none ↦ none | some w' ↦ some ((make_metrics fl cl reg w).0, w') ]) h

  -- On a registry without these metrics the creation of a recorder does not panic, the metrics have
  -- the names and labels of the table, and a second creation on the same registry panics; for a client
  -- to which the names and labels of the table are valid.
  pub new_prometheus_recorder-once :
      (reg : R) (w : W)
      → all_valid laws.is_valid metric_table ≡ true
      → disjoint (names metric_table) (laws.registered reg w) ≡ true
      → (p : PrometheusRec R V) × (w' : W) × (new_prometheus_recorder fl cl reg w ≡ some (p, w'))
        × (described p ≡ metric_table)
        × (new_prometheus_recorder fl cl reg w' ≡ none)
  new_prometheus_recorder-once reg w valid free =
      let r = make_metrics fl cl reg w in
      let e = make_metrics-described reg w in
      let o = registered-make_metrics reg w in
      let done = registers_as reg (collectors r.0) r.1 metric_table e valid refl (rw o free) in
      let again = make_metrics fl cl reg done.0 in
      let taken =
        refuses_as reg (collectors again.0) again.1 metric_table _
          (make_metrics-described reg done.0) (registered-make_metrics reg done.0 ∙ done.2) refl in
      (r.0, done.0, created reg w _ done.1, e, created reg done.0 _ taken)
