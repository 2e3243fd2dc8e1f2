-- ===== src/Tests/Prometheus.antt =====
-- A Prometheus client that works on two lists, with which a recorder runs.
use native.Mathlib.Nat.{le_refl}
use Prim.Native.String.{len}
use text.Mathlib.Text.{◌==◌ as str_eq}
use text.Mathlib.TextEquality.{eq_iff}
use goresilience.Prelude.{
  ℕ, ◌+◌, String, ◌≡◌, ◌≢◌, refl, sym, ap, ◌∙◌, arith, inl, inr, Bool, true, false, ◌&&◌, none,
  some, List, [], ◌∷◌, ◌++◌, map, length, if◌then◌else◌, ◌==◌, Bool-cases,
}
use goresilience.Runtime.{Clock}
use goresilience.Metrics.{circuitbreaker_state}
use goresilience.Metrics.PrometheusClient.{
  Kind, Collector, Client, ClientLaws, Desc, names, distinct, disjoint, fq_name, of_collector,
}
use goresilience.Metrics.Prometheus.{
  PrometheusRec, make_metrics, with_id, new_prometheus_recorder, measure,
}
use goresilience.Metrics.Prometheus.Registered.{
  metric_table, new_prometheus_recorder-once, make_metrics-described, described,
}
use goresilience.Metrics.Prometheus.Series.{measure-separate}
use goresilience.Tests.Fraction.{Fraction, fractions}

abbrev same : List String → List String → Bool
same [] [] = true
same [] (t ∷ ts) = false
same (s ∷ ss) [] = false
same (s ∷ ss) (t ∷ ts) = str_eq s t && same ss ts

and_right : (a b : Bool) → (a && b) ≡ true → b ≡ true
and_right true b h = h
and_right false b h = cc

given : {A : Type 0} {a b : A} → (t : Bool) → (if t then some a else none) ≡ some b → a ≡ b
given true h = cc
given false h = cc

same→≡ : (ss ts : List String) → same ss ts ≡ true → ss ≡ ts
same→≡ [] [] h = refl
same→≡ [] (t ∷ ts) h = cc
same→≡ (s ∷ ss) [] h = cc
same→≡ (s ∷ ss) (t ∷ ts) h = elim (Bool-cases (str_eq s t)) [
  | inl e ↦ rw ((eq_iff s t).0 e, same→≡ ss ts (and_right (str_eq s t) (same ss ts) h)) refl
  | inr e ↦ cc
]

-- The names that are registered, the label values of the updates, and the time.
record Registry : Type 0 where
  known : List String
  updated : List (List String)
  at : ℕ

abbrev updates_of : List String → List (List String) → ℕ
updates_of values [] = 0
updates_of values (us ∷ uss) = (if same values us then 1 else 0) + updates_of values uss

abbrev Vec : Kind → Type 0
Vec k = Desc

abbrev desc_of : (k : Kind) → Vec k → Desc
desc_of k v = v

abbrev names_of : List (Collector Vec) → List String
names_of vs = names (map (of_collector desc_of) vs)

abbrev client : Client Registry Unit Fraction Vec
client = record {
  new_vec = λ k o ls w. ((fq_name o, ls), w);
  must_register = λ reg vs w.
      if distinct (names_of vs) && disjoint (names_of vs) w.known
      then some (record w { known = names_of vs ++ w.known })
      else none;
  update = λ k v values u w.
      if length values == length v.1
      then some (record w { updated = values ∷ w.updated })
      else none;
  def_buckets = [];
}

refused :
    (vs : List (Collector Vec)) (w : Registry)
    → disjoint (names_of vs) w.known ≡ false
    → client.must_register tt vs w ≡ none
refused vs w f = elim (Bool-cases (distinct (names_of vs))) [
  | inl e ↦ rw (e, f) refl
  | inr e ↦ rw e refl
]

not_counted :
    (others values : List String) (uss : List (List String))
    → others ≢ values
    → updates_of others (values ∷ uss) ≡ updates_of others uss
not_counted others values uss h = elim (Bool-cases (same others values)) [
  | inl e ↦ absurd (h (same→≡ others values e))
  | inr e ↦ rw e (omega arith)
]

updated_when :
    (values : List String) (n : ℕ) (w : Registry)
    → length values ≡ n
    → (if length values == n then some (record w { updated = values ∷ w.updated }) else none)
      ≡ some (record w { updated = values ∷ w.updated })
updated_when values n w e = ground arith

abbrev laws : ClientLaws client ℕ
laws = record {
  desc = desc_of;
  is_valid = λ d. true;
  registered = λ reg w. w.known;
  series = λ k v values w. updates_of values w.updated;
  desc-new_vec = λ k o ls w. refl;
  registered-new_vec = λ reg k o ls w. refl;
  registers =
      λ reg vs w valid d f. (record w { known = names_of vs ++ w.known }, rw (d, f) refl, refl);
  refuses = λ reg vs w f. refused vs w f;
  updates = λ k v values u w e.
      (record w { updated = values ∷ w.updated }, updated_when values (length v.1) w e);
  series-update = λ k l v values u x others w w' e h.
      ap (λ a. updates_of others a.updated) (sym (given (length values == length v.1) e))
      ∙ not_counted others values w.updated h;
}

abbrev new_registry : Registry
new_registry = record { known = "go_goroutines" ∷ []; updated = []; at = 7 }

abbrev time : Clock Registry
time = record {
  now = λ w. w.at;
  sleep = λ d w. record w { at = w.at + d };
  sleep_lasts = λ d w. le_refl (w.at + d);
}

new_prometheus_recorder-once_example :
    (p : PrometheusRec Unit Vec) × (w' : Registry) × (new_prometheus_recorder fractions client tt
        new_registry
      ≡ some (p, w'))
    × (described fractions client laws p ≡ metric_table)
    × (new_prometheus_recorder fractions client tt w' ≡ none)
new_prometheus_recorder-once_example =
    new_prometheus_recorder-once fractions client laws tt new_registry refl refl

abbrev recorder : PrometheusRec Unit Vec
recorder = (make_metrics fractions client tt new_registry).0

measure-separate_example :
    (w' : Registry) × (measure fractions client time fractions.of_int
        (with_id recorder "retries")
        (circuitbreaker_state "open")
        new_registry
      ≡ some w')
    × (updates_of ("main" ∷ []) w'.updated ≡ 0)
measure-separate_example =
    measure-separate fractions client laws time fractions.of_int recorder "retries"
      (circuitbreaker_state "open") new_registry Kind.gauge recorder.concurrency_limit_limit "main"
      [] (make_metrics-described fractions client laws tt new_registry)
      (λ e. omega (arith, ap len e))
