-- ===== src/Metrics.antt =====
-- pkg/metrics/metrics.go: the metrics of the service, their registration and the functions that record
-- events. The prometheus client is a parameter.
pub mod Counts
pub mod Requests
use Prim.Native.String.{String}
use turl.Base.{Bool, true, false, List, [], ◌∷◌, if◌then◌else◌}
use turl.Base.Int.{ℤ}
use turl.Action.{Action, ◌>>◌}

-- CounterOpts and HistogramOpts, without the help and the buckets, with the names of the labels.
pub record Options : Type 0 where
  pub namespace : String
  pub subsystem : String
  pub name : String
  pub labels : List String

abbrev pub turl_namespace : String
turl_namespace = "turl"

abbrev pub cache_layer_local : String
cache_layer_local = "local"

abbrev pub cache_layer_distributed : String
cache_layer_distributed = "distributed"

abbrev pub http_requests_total : Options
http_requests_total = record {
  namespace = turl_namespace;
  subsystem = "http";
  name = "requests_total";
  labels = "method" ∷ "path" ∷ "status" ∷ [];
}

abbrev pub http_request_duration : Options
http_request_duration = record {
  namespace = turl_namespace;
  subsystem = "http";
  name = "request_duration_seconds";
  labels = "method" ∷ "path" ∷ [];
}

abbrev pub cache_requests_total : Options
cache_requests_total = record {
  namespace = turl_namespace;
  subsystem = "cache";
  name = "requests_total";
  labels = "layer" ∷ "result" ∷ [];
}

abbrev pub shorten_created_total : Options
shorten_created_total = record {
  namespace = turl_namespace;
  subsystem = "";
  name = "shorten_created_total";
  labels = [];
}

abbrev pub expired_reaped_total : Options
expired_reaped_total = record {
  namespace = turl_namespace;
  subsystem = "";
  name = "expired_links_reaped_total";
  labels = [];
}

-- What is registered: the collectors of the Go runtime and of the process, and the metrics.
pub data Collector : Type 0 where
  go_collector process_collector : Collector
  metric : Options → Collector

-- The client: MustRegister of the registry; WithLabelValues and Inc; WithLabelValues and Observe; Add;
-- and the conversion of an int64 to a float64.
pub record Prometheus (W Float : Type 0) : Type 0 where
  pub must_register : List Collector → Action W (Unit {0})
  pub increment : Options → List String → Action W (Unit {0})
  pub observe : Options → List String → Float → Action W (Unit {0})
  pub add : Options → Float → Action W (Unit {0})
  pub float64 : ℤ → Float

module _ {W Float : Type 0} (p : Prometheus W Float) where
  -- init
  unfoldable pub init_metrics : Action W (Unit {0})
  init_metrics = p.must_register (
      go_collector
      ∷ process_collector
      ∷ metric http_requests_total
      ∷ metric http_request_duration
      ∷ metric cache_requests_total
      ∷ metric shorten_created_total
      ∷ metric expired_reaped_total
      ∷ [])

  -- ObserveHTTPRequest
  unfoldable pub observe_http_request : String → String → String → Float → Action W (Unit {0})
  observe_http_request method path status seconds = do
    p.increment http_requests_total (method ∷ path ∷ status ∷ [])
    p.observe http_request_duration (method ∷ path ∷ []) seconds

  -- RecordCacheResult
  unfoldable pub record_cache_result : String → Bool → Action W (Unit {0})
  record_cache_result layer hit =
      p.increment cache_requests_total (layer ∷ (if hit then "hit" else "miss") ∷ [])

  -- IncShortenCreated
  unfoldable pub inc_shorten_created : Action W (Unit {0})
  inc_shorten_created = p.increment shorten_created_total []

  -- AddExpiredReaped
  unfoldable pub add_expired_reaped : ℤ → Action W (Unit {0})
  add_expired_reaped n = p.add expired_reaped_total (p.float64 n)
