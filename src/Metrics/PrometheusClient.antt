-- ===== src/Metrics/PrometheusClient.antt =====
-- What metrics/prometheus.go uses of the Prometheus client library, which is not in the repository:
-- its operations as a parameter, and as laws what its documentation says of them.
use text.Mathlib.Text.{◌==◌}
use Prim.Native.String.{◌++◌ as append}
use goresilience.Prelude.{
  String, ◌≡◌, ◌≢◌, Bool, true, false, not, ◌&&◌, ◌||◌, Option, none, some, List, [], ◌∷◌, ◌++◌,
  map, length,
}

-- The three sorts of a `...Vec`.
pub data Kind : Type 0 where
  counter : Kind
  gauge : Kind
  histogram : Kind

-- What a call after `WithLabelValues` does: `Inc`, `Set` or `Observe`.
pub data Update (F : Type 0) : Kind → Type 0 where
  inc : Update F counter
  set_to : F → Update F gauge
  observe_value : F → Update F histogram

-- `CounterOpts`, `GaugeOpts` and `HistogramOpts`; only a histogram has buckets.
pub record Opts (F : Type 0) : Type 0 where
  pub namespace : String
  pub subsystem : String
  pub name : String
  pub help : String
  pub buckets : List F

pub data Collector (V : Kind → Type 0) : Type 0 where
  collector : (k : Kind) → V k → Collector V

abbrev pub of_collector :
    {V : Kind → Type 0} {D : Type 0} → ((k : Kind) → V k → D) → Collector V → D
of_collector f (collector k v) = f k v

-- `none` is a panic. `R` is `Registerer`, and `V` the types of the vecs.
pub record Client (W R F : Type 0) (V : Kind → Type 0) : Type 0 where
  pub new_vec : (k : Kind) → Opts F → List String → W → V k × W
  pub must_register : R → List (Collector V) → W → Option W
  pub update : (k : Kind) → V k → List String → Update F k → W → Option W
  pub def_buckets : List F

abbrev pub is_among : String → List String → Bool
is_among n [] = false
is_among n (m ∷ ms) = (n == m) || is_among n ms

abbrev pub distinct : List String → Bool
distinct [] = true
distinct (n ∷ ns) = not (is_among n ns) && distinct ns

-- No text of the one list is in the other.
abbrev pub disjoint : List String → List String → Bool
disjoint [] ms = true
disjoint (n ∷ ns) ms = not (is_among n ms) && disjoint ns ms

-- The name of a metric, and the names of its labels.
abbrev pub Desc : Type 0
Desc = String × List String

abbrev pub names : List Desc → List String
names ds = map (λ d. d.0) ds

abbrev pub all_valid : (Desc → Bool) → List Desc → Bool
all_valid f [] = true
all_valid f (d ∷ ds) = f d && all_valid f ds

-- `BuildFQName`, for three parts that are not empty.
abbrev pub fq_name : {F : Type 0} → Opts F → String
fq_name o = append o.namespace (append "_" (append o.subsystem (append "_" o.name)))

-- What a vec, a registry and a series of a vec are, as far as the recorder can tell.
pub record ClientLaws {W R F : Type 0} {V : Kind → Type 0} (cl : Client W R F V) (Series : Type 0)
    : Type 0 where
  pub desc : (k : Kind) → V k → Desc
  pub is_valid : Desc → Bool
  pub registered : R → W → List String
  pub series : (k : Kind) → V k → List String → W → Series
  pub desc-new_vec :
      (k : Kind) (o : Opts F) (ls : List String) (w : W)
      → desc k (cl.new_vec k o ls w).0 ≡ (fq_name o, ls)
  pub registered-new_vec :
      (reg : R) (k : Kind) (o : Opts F) (ls : List String) (w : W)
      → registered reg (cl.new_vec k o ls w).1 ≡ registered reg w
  -- Metrics with valid and distinct names that the registry does not have are registered.
  pub registers :
      (reg : R) (vs : List (Collector V)) (w : W)
      → let ds = map (of_collector desc) vs in
        all_valid is_valid ds ≡ true
        → distinct (names ds) ≡ true
        → disjoint (names ds) (registered reg w) ≡ true
        → (w' : W) × (cl.must_register reg vs w ≡ some w')
          × (registered reg w' ≡ names ds ++ registered reg w)
  -- It panics when the registry has one of the names.
  pub refuses :
      (reg : R) (vs : List (Collector V)) (w : W)
      → disjoint (names (map (of_collector desc) vs)) (registered reg w) ≡ false
      → cl.must_register reg vs w ≡ none
  -- An update does not panic when there are as many values as labels,
  pub updates :
      (k : Kind) (v : V k) (values : List String) (u : Update F k) (w : W)
      → length values ≡ length (desc k v).1
      → (w' : W) × (cl.update k v values u w ≡ some w')
  -- and it changes no series with other values.
  pub series-update :
      (k l : Kind) (v : V k) (values : List String) (u : Update F k) (x : V l)
      (others : List String) (w w' : W)
      → cl.update k v values u w ≡ some w'
      → others ≢ values
      → series l x others w' ≡ series l x others w
