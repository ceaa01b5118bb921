-- ===== src/Tests/Start.antt =====
-- A process in memory: packages whose calls succeed, over a world that counts the pings, and a
-- configuration for them.

use turl.Base.{ℕ, ◌+◌, ◌≡◌, ◌≢◌, refl, true, false, none, some, List, [], ◌∷◌}
use turl.Base.Int.{pos}
use turl.Errors.{Result, ok, err, panicked, backend}
use turl.Action.{Action, pure}
use turl.Cache.{Redis, BigCache, proxy, metrics_cache, redis_cache, local_cache}
use turl.Cache.Build.{CachePackages, new_proxy, layered}
use turl.Clients.{Gorm, new_mysql, client}
use turl.Cli.{Process, Flags, server_start}
use turl.Otel.{Tracers}
use turl.Cli.Ready.{IsProbe, readiness_iff, Started, server_start-Started}
use turl.Config.{ServerConfig, LogConfig, ObservabilityConfig, validate}
use turl.Logging.{new_logger}
use turl.Observability.{AdminServer, Answer}
use turl.Service.{close_command, close_query, ping_deps}
use turl.Service.Modes.{AreHandles}
use turl.Service.Build.{Packages, Sides, new_service, check_health, close_service, query_side}
use turl.Shutdown.{OptionFunc, graceful_shutdown}
use turl.Shutdown.Order.{graceful_shutdown-after_all}
use turl.Handler.Build.{new_handler, close_handler}
use turl.Storage
use turl.Storage.{Database, TinyUrl}

-- A call that succeeds and one that counts.
abbrev done : Action ℕ (Unit {0})
done = pure tt

abbrev counting : Action ℕ (Unit {0})
counting w = (w + 1, ok tt)

abbrev gorm : Gorm ℕ ℕ ℕ
gorm = record {
  open_db = λ dsn. pure 0;
  use_tracing = λ d. done;
  db = λ d. pure 0;
  set_max_idle_conns = λ p n. done;
  set_max_open_conns = λ p n. done;
  set_conn_max_lifetime = λ p t. done;
  set_conn_max_idle_time = λ p t. done;
}

abbrev redis : Redis ℕ
redis = record {
  set_ex = λ k v t. done;
  get = λ k. pure [];
  del = λ k. done;
  ping = counting;
  close = done;
  int_n = λ n. pure 0;
}

abbrev big_cache : BigCache ℕ
big_cache = record { set = λ k v. done; get = λ k. pure []; delete = λ k. done; close = done }

abbrev caches : CachePackages ℕ
caches = record {
  clients = record {
    new_universal_client = λ addr t idle active. pure redis;
    instrument_tracing = λ r. done;
  };
  new_big_cache = λ ttl capacity memory. pure big_cache;
  count = λ layer hit w. w;
}

abbrev row : TinyUrl
row = record { long_url = []; short = 0; expires_at = none; created_at = pos 0; deleted_at = none }

abbrev rows : Database ℕ
rows = record {
  create = λ n l e. pure row;
  take_short = λ n. pure row;
  take_long_url = λ l. pure row;
  delete_short = λ n. pure 1;
  delete_expired_before = λ t n. pure 0;
  sql_db = done;
  ping = counting;
}

abbrev packages : Packages ℕ ℕ ℕ
packages = record {
  gorm = gorm;
  statements = λ d. rows;
  auto_migrate = λ d. done;
  new_sequence = λ d c. pure (record { next = pure 0; close = λ w. w });
  log_stats = λ p. done;
  run_janitor = λ s. done;
  caches = caches;
  now = λ w. (w, pos 0);
  validate = λ l. ok tt;
  inc_shorten_created = λ w. w;
  add_expired_reaped = λ n w. w;
}

abbrev pub log_config : LogConfig
log_config = record {
  writers = "console" ∷ "file" ∷ [];
  file_config = record {
    filepath = "a.log";
    max_age = pos 1;
    max_backups = pos 1;
    compress = false;
    max_size = pos 1;
  };
  format = "json";
  add_source = false;
  level = "warn";
}

abbrev pub admin_config : ObservabilityConfig
admin_config = record { enable = true; admin_listen = ""; admin_port = pos 0; tracing = none }

abbrev pub config : ServerConfig
config = record {
  listen = "localhost";
  port = pos 8080;
  debug = true;
  domain = "localhost";
  readonly = false;
  request_timeout = pos 1000000000;
  global_rate_limit_key = "k";
  global_write_rate = pos 1;
  global_write_burst = pos 1;
  stand_alone_read_rate = pos 1;
  stand_alone_read_burst = pos 1;
  log = some log_config;
  tddl = some (record { step = 100; seq_name = "s"; start_num = 10000 });
  mysql = some (record { dsn = "d"; max_conn = pos 1 });
  cache = some (record {
    redis =
        some (record { addr = []; dial_timeout = pos 1; max_conn = pos 1; ttl = pos 60000000000 });
    local_cache = some (record { ttl = pos 1; capacity = pos 1; max_memory = pos 1 });
  });
  observability = some admin_config;
}

abbrev reading : ServerConfig
reading = record config { readonly = true }

abbrev struct : ServerConfig → Result (Unit {0})
struct c = ok tt

config_run : validate struct config ≡ ok tt
unfolding validate
config_run = refl

abbrev sides : Sides ℕ
sides = record {
  command = none;
  query = some (
      query_side packages (pos 60000000000) 0
        (layered caches (pos 1) (redis_cache redis) (local_cache big_cache)));
}

sides_run : (new_service packages reading 0).1 ≡ ok sides
unfolding new_service new_mysql new_proxy client
sides_run = refl

sides_calm : (check_health sides 0).1 ≢ panicked
unfolding check_health query_side ping_deps Storage.ping layered proxy metrics_cache redis_cache
    local_cache
sides_calm p = absurd cc

readiness_iff_example :
    (db : ℕ) × (r : Redis ℕ) × (admin : AdminServer ℕ) × (a : Answer) × IsProbe packages
      (λ l. l)
      (some admin_config)
      sides
      0
      db
      r
      admin
      a
    × AreHandles packages reading db r
readiness_iff_example =
    readiness_iff packages (λ l. l) reading admin_config 0 sides 0 (λ e. refl) sides_run refl
      sides_calm

abbrev pub tracers : Tracers ℕ ℕ ℕ ℕ
tracers = record {
  new_exporter = λ endpoint. pure 0;
  new_resource = λ name. pure 0;
  new_provider = λ e r ratio. pure 0;
  set_provider = λ t. counting;
  set_propagators = λ ps. counting;
  stop_provider = λ t. done;
}

abbrev pub process : Process ℕ ℕ ℕ ℕ ℕ ℕ
process = record {
  read_file = λ file given. pure config;
  struct = struct;
  set_default = λ h. done;
  otel = tracers;
  packages = packages;
  listen = λ server handler. pure done;
  listen_admin = λ s. pure counting;
  await_signal = done;
  get = λ addr path. pure 200;
}

abbrev flags : Flags
flags = record { file = "config.yaml"; readonly = false; debug = true }

start_run : (server_start process flags 0).1 ≡ ok tt
unfolding server_start new_service new_logger new_mysql new_proxy client close_service close_command
    Storage.close proxy metrics_cache redis_cache local_cache close_query new_handler close_handler
start_run = refl

server_start-Started_example : Started process flags 0
server_start-Started_example = server_start-Started process flags 0 start_run

-- A step that fails does not keep the others from being taken.
abbrev steps : List (OptionFunc ℕ)
steps = counting ∷ (λ w. (w + 10, err (backend 1))) ∷ counting ∷ []

graceful_shutdown-after_all_example : graceful_shutdown steps 0 ≡ (12, ok tt)
graceful_shutdown-after_all_example =
    graceful_shutdown-after_all steps 0
      ((λ p. absurd cc), ((λ p. absurd cc), ((λ p. absurd cc), tt)))
