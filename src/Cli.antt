-- ===== src/Cli.antt =====
-- cli/server_command.go: the commands that start a server and ask for its health.
-- The flags, the file, the network, the signals and the packages of the tracing are parameters.
pub mod Ready
pub mod App
pub mod Exit
pub mod Readonly
pub mod Limits
use Prim.Native.String.{String}
use turl.Base.{ℕ, Bool, true, false, Option, none, some, List, [], ◌∷◌, ◌++◌, ◌==◌, if◌then◌else◌}
use turl.Errors.{Error, Result, ok, err, panicked, follow, unhealthy}
use turl.Action.{Action, pure, raise, lift, wrap, ◌>>=◌, ◌>>◌}
use turl.Cache.{Redis}
use turl.Clients.{client}
use turl.Config.{ServerConfig, ObservabilityConfig, TracingConfig, validate}
use turl.Logging.{LogHandler, new_logger}
use turl.Observability.{
  AdminServer, HealthCheck, new_admin, register_readiness_check, set_metrics_handler,
}
use turl.Routing.{health_check_path}
use turl.Routing.Server.{Server, make_server}
use turl.Otel.{Tracers, init}
use turl.Handler.Build.{Handler, new_handler, check_readiness, close_handler}
use turl.Service.Build.{Packages, Sides, new_service, check_health, close_service}
use turl.Cache.Build.{CachePackages}
use turl.Shutdown.{OptionFunc, handler_shutdown, http_server_shutdown, graceful_shutdown}

-- The flags of `start`.
pub record Flags : Type 0 where
  pub file : String
  pub readonly : Bool
  pub debug : Bool

-- What the commands call: configs.ReadFile with the values that win over the file; the validator of the
-- struct tags; slog.SetDefault; the packages of the tracing and of the service; a server that listens,
-- with the handler of its routes, whose result is its Shutdown, and one for the admin server; the wait for
-- a signal; and http.Get of an address and a path, whose result is the status.
pub record Process (W D P E R T : Type 0) : Type 0 where
  pub read_file : String → List (String × Bool) → Action W ServerConfig
  pub struct : ServerConfig → Result (Unit {0})
  pub set_default : LogHandler → Action W (Unit {0})
  pub otel : Tracers W E R T
  pub packages : Packages W D P
  pub listen : Server W → Handler W → Action W (OptionFunc W)
  pub listen_admin : AdminServer W → Action W (OptionFunc W)
  pub await_signal : Action W (Unit {0})
  pub get : String → String → Action W ℕ

abbrev pub given : String → Bool → List (String × Bool)
given name true = (name, true) ∷ []
given name false = []

-- The admin server of startObservabilityServer, none where it is not enabled.
unfoldable pub admin_server :
    {W : Type 0} → Option ObservabilityConfig → HealthCheck W → Result (Option (AdminServer W))
unfolding new_admin register_readiness_check set_metrics_handler
admin_server none check = ok none
admin_server (some c) check =
    let mounted = set_metrics_handler (register_readiness_check "storage" check (new_admin c)) in
    if c.enable then turl.Errors.◌>>=◌ mounted (λ s. ok (some s)) else ok none

-- shutdownOptions
unfoldable pub shutdown_options :
    {W : Type 0}
    → OptionFunc W
    → Option (OptionFunc W)
    → Action W (Unit {0})
    → OptionFunc W
    → List (OptionFunc W)
unfolding handler_shutdown http_server_shutdown
shutdown_options srv none handler tracing =
    http_server_shutdown srv ∷ handler_shutdown handler ∷ tracing ∷ []
shutdown_options srv (some admin) handler tracing =
    http_server_shutdown srv ∷ http_server_shutdown admin ∷ handler_shutdown handler ∷ tracing ∷ []

module _ {W D P E R T : Type 0} (p : Process W D P E R T) where
  -- parseServerStartConfig
  unfoldable pub parse_config : Flags → Action W ServerConfig
  unfolding validate
  parse_config flags = do
    conf ← p.read_file flags.file (given "readonly" flags.readonly ++ given "debug" flags.debug)
    lift (validate p.struct conf)
    pure conf

  -- initTracing
  unfoldable pub init_tracing : Option ObservabilityConfig → Action W (OptionFunc W)
  unfolding init
  init_tracing none = init p.otel none
  init_tracing (some c) = init p.otel c.tracing

  -- startObservabilityServer, with the goroutine that listens.
  unfoldable pub start_admin : Option (AdminServer W) → Action W (Option (OptionFunc W))
  start_admin none = pure none
  start_admin (some s) = do stop ← p.listen_admin s; pure (some stop)

  unfoldable pub start_observability_server :
      Option ObservabilityConfig → HealthCheck W → Action W (Option (OptionFunc W))
  unfolding admin_server start_admin
  start_observability_server c check = do admin ← lift (admin_server c check); start_admin admin

  -- serverStart
  unfoldable pub server_start : Flags → Action W (Unit {0})
  unfolding parse_config init_tracing make_server start_observability_server shutdown_options
      graceful_shutdown
  server_start flags = do
    conf ← parse_config flags
    log ← lift (follow conf.log)
    logger ← lift (new_logger log)
    p.set_default logger
    shutdown_tracing ← init_tracing conf.observability
    handler ← new_handler p.packages conf
    server ← make_server p.packages.caches.clients conf
    srv ← p.listen server handler
    admin ← start_observability_server conf.observability (check_readiness handler)
    p.await_signal
    graceful_shutdown (shutdown_options srv admin (close_handler handler) shutdown_tracing)

  -- serverHealth
  unfoldable pub server_health : String → Action W (Unit {0})
  server_health addr = do
    status ← p.get addr health_check_path
    if status == 200 then pure tt else raise (unhealthy status)
