-- ===== src/Config.antt =====
-- configs: the configuration of the server, its validation beyond the struct tags, and the defaults of the
-- admin server. A pointer is an option. The validator of the struct tags is a parameter.
pub mod Read
pub mod Validation
use Prim.Native.String.{String}
use text.Mathlib.Text
use turl.Base.{ℕ, Bool, true, false, ◌||◌, Option, none, some, List, [], ◌∷◌, ◌==◌, if◌then◌else◌}
use turl.Base.Int.{ℤ, pos, negsuc, ltb_ℤ}
use turl.Base.Float.{Float}
use turl.Errors.{
  Error, Result, ok, err, panicked, ◌>>=◌, ◌>>◌, follow, request_timeout_short, invalid_output,
  non_file_path, invalid_format,
}
use turl.Expiry.{Duration}
use turl.Tddl.{TddlConfig}

-- FileConfig
pub record FileConfig : Type 0 where
  pub filepath : String
  pub max_age : ℤ
  pub max_backups : ℤ
  pub compress : Bool
  pub max_size : ℤ

-- LogConfig
pub record LogConfig : Type 0 where
  pub writers : List String
  pub file_config : FileConfig
  pub format : String
  pub add_source : Bool
  pub level : String

-- MySQLConfig
pub record MySqlConfig : Type 0 where
  pub dsn : String
  pub max_conn : ℤ

-- RedisConfig
pub record RedisConfig : Type 0 where
  pub addr : List String
  pub dial_timeout : Duration
  pub max_conn : ℤ
  pub ttl : Duration

-- LocalCacheConfig
pub record LocalCacheConfig : Type 0 where
  pub ttl : Duration
  pub capacity : ℤ
  pub max_memory : ℤ

-- CacheConfig
pub record CacheConfig : Type 0 where
  pub redis : Option RedisConfig
  pub local_cache : Option LocalCacheConfig

-- TracingConfig
pub record TracingConfig : Type 0 where
  pub enable : Bool
  pub otlp_endpoint : String
  pub sampling_ratio : Float

-- ObservabilityConfig
pub record ObservabilityConfig : Type 0 where
  pub enable : Bool
  pub admin_listen : String
  pub admin_port : ℤ
  pub tracing : Option TracingConfig

-- ServerConfig
pub record ServerConfig : Type 0 where
  pub listen : String
  pub port : ℤ
  pub debug : Bool
  pub domain : String
  pub readonly : Bool
  pub request_timeout : Duration
  pub global_rate_limit_key : String
  pub global_write_rate : ℤ
  pub global_write_burst : ℤ
  pub stand_alone_read_rate : ℤ
  pub stand_alone_read_burst : ℤ
  pub log : Option LogConfig
  pub tddl : Option TddlConfig
  pub mysql : Option MySqlConfig
  pub cache : Option CacheConfig
  pub observability : Option ObservabilityConfig

abbrev pub output_console : String
output_console = "console"

abbrev pub output_file : String
output_file = "file"

abbrev pub encoder_type_text : String
encoder_type_text = "text"

abbrev pub encoder_type_json : String
encoder_type_json = "json"

-- slices.Contains
abbrev pub contains : List String → String → Bool
contains [] s = false
contains (x ∷ xs) s = if Text.◌==◌ s x then true else contains xs s

-- The loop of Validate over the writers.
unfoldable pub check_writer : FileConfig → String → Result (Unit {0})
check_writer f v =
    if contains (output_console ∷ output_file ∷ []) v
    then if Text.◌==◌ v output_file
      then if Text.◌==◌ f.filepath "" then err non_file_path else ok tt
      else ok tt
    else err invalid_output

unfoldable pub check_writers : FileConfig → List String → Result (Unit {0})
unfolding check_writer
check_writers f [] = ok tt
check_writers f (v ∷ vs) = check_writer f v >> check_writers f vs

unfoldable pub check_format : String → Result (Unit {0})
check_format format =
    if contains (encoder_type_text ∷ encoder_type_json ∷ []) format
    then ok tt
    else err invalid_format

unfoldable pub check_timeout : Duration → Result (Unit {0})
check_timeout t = if ltb_ℤ t (pos 1000000000) then err request_timeout_short else ok tt

-- Validate, over the validator of the struct tags.
unfoldable pub validate : (ServerConfig → Result (Unit {0})) → ServerConfig → Result (Unit {0})
unfolding check_writers check_format check_timeout
validate struct c = do
  struct c
  check_timeout c.request_timeout
  log ← follow c.log
  check_writers log.file_config log.writers
  check_format log.format

abbrev is_zero : ℤ → Bool
is_zero (pos n) = n == 0
is_zero (negsuc n) = false

-- WithDefaults
unfoldable pub with_defaults : ObservabilityConfig → ObservabilityConfig
with_defaults c = record c {
  admin_listen = if Text.◌==◌ c.admin_listen "" then "0.0.0.0" else c.admin_listen;
  admin_port = if is_zero c.admin_port then pos 9090 else c.admin_port;
}
