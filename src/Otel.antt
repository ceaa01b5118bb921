-- ===== src/Otel.antt =====
-- pkg/otel/otel.go: the start of the tracing. The exporter, the resource, the provider and the globals of
-- the OpenTelemetry packages are parameters.
use Prim.Native.String.{String}
use turl.Base.{Option, none, some, List, [], ◌∷◌, if◌then◌else◌}
use turl.Base.Float.{Float, is_zero, one}
use turl.Action.{Action, pure, wrap, ◌>>=◌, ◌>>◌}
use turl.Config.{TracingConfig}
use turl.Shutdown.{OptionFunc}

-- The formats in which the identifiers of a trace go from process to process.
pub data Propagator : Type 0 where
  trace_context baggage : Propagator

-- What Init calls: the exporter for an endpoint; the resource with the name of the service; the provider
-- that batches spans for an exporter and, unless the parent of a span decides, samples a share of the
-- traces; the two globals; and the Shutdown of a provider.
pub record Tracers (W E R T : Type 0) : Type 0 where
  pub new_exporter : String → Action W E
  pub new_resource : String → Action W R
  pub new_provider : E → R → Float → Action W T
  pub set_provider : T → Action W (Unit {0})
  pub set_propagators : List Propagator → Action W (Unit {0})
  pub stop_provider : T → OptionFunc W

abbrev pub service_name : String
service_name = "turl"

-- DefaultSamplingRatio
abbrev pub default_sampling_ratio : Float
default_sampling_ratio = one

-- The share of the traces that Init samples.
unfoldable pub sampling_ratio_of : TracingConfig → Float
sampling_ratio_of c = if is_zero c.sampling_ratio then default_sampling_ratio else c.sampling_ratio

module _ {W E R T : Type 0} (o : Tracers W E R T) where
  -- Init, where tracing is enabled.
  unfoldable pub install : TracingConfig → Action W (OptionFunc W)
  unfolding sampling_ratio_of
  install c = do
    exporter ← wrap "create otlp exporter" (o.new_exporter c.otlp_endpoint)
    resource ← wrap "create resource" (o.new_resource service_name)
    provider ← o.new_provider exporter resource (sampling_ratio_of c)
    o.set_provider provider
    o.set_propagators (trace_context ∷ baggage ∷ [])
    pure (o.stop_provider provider)

  -- noopShutdown
  abbrev pub noop_shutdown : OptionFunc W
  noop_shutdown = pure tt

  -- Init
  unfoldable pub init : Option TracingConfig → Action W (OptionFunc W)
  unfolding install
  init none = pure noop_shutdown
  init (some c) = if c.enable then install c else pure noop_shutdown
