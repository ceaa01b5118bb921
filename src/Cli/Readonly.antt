-- ===== src/Cli/Readonly.antt =====
-- `turl start` with the flag for read-only mode, from the flag to the service.
use mathlib.Core.Path.{fun_ext}
use turl.Base.{◌≡◌, refl, ap, true}
use turl.Action.{Action, continue, lift, pure}
use turl.Action.Gives.{Gives, continue-same, gives-bind, gives-after, gives-pure}
use turl.Base58.{codes}
use turl.Config.{ServerConfig, validate}
use turl.Config.Read.{Koanf, read_file, IsKoanf, read_file-readonly}
use turl.Handler.Build.{new_handler}
use turl.Service.{Parts}
use turl.Service.Build.{Packages, Numbers}
use turl.Service.Modes.{new_service_readonly}
use turl.Tddl.{TddlConfig}
use turl.Cli.{
  Process, Flags, parse_config, server_start, init_tracing, start_observability_server, start_admin,
}
use turl.Otel.{init, install, sampling_ratio_of}
use turl.Routing.{new_server}
use turl.Routing.Server.{make_server, write_limiter, http_server}

module _ {W D P : Type 0} (p : Packages W D P) (migrate : D → Action W (Unit {0}))
    (sequence : D → TddlConfig → Action W (Numbers W))
    (janitor : Parts W → Action W (Unit {0})) where
  -- The packages with another migration, another sequence and another janitor.
  abbrev pub altered : Packages W D P
  altered = record p { auto_migrate = migrate; new_sequence = sequence; run_janitor = janitor }

  new_handler-altered :
      (c : ServerConfig) → c.readonly ≡ true → new_handler altered c ≡ new_handler p c
  unfolding new_handler
  new_handler-altered c readonly = fun_ext (λ w.
      ap (λ r. continue r (λ s. pure (record { domain = codes c.domain; sides = s })))
        (new_service_readonly p migrate sequence janitor c w readonly).0)

module _ {W D P E R T : Type 0} (p : Process W D P E R T) (k : Koanf W) (law : IsKoanf k) where
  parse_config-readonly :
      (flags : Flags)
      → p.read_file ≡ read_file k
      → flags.readonly ≡ true
      → Gives (parse_config p flags) (λ c. c.readonly ≡ true)
  unfolding parse_config
  parse_config-readonly flags reads given =
      rw (reads, given)
        (gives-bind (read_file k flags.file _) _ (read_file-readonly k law flags.file _)
          (λ c readonly.
            gives-after (lift (validate p.struct c)) _
              (λ u. gives-pure (λ d. d.readonly ≡ true) c readonly)))

  -- With the flag for read-only mode, whatever the file says, a start of the server runs in the same
  -- way for all ways to migrate the tables, to make a sequence and to run a janitor: it calls none of
  -- them. This holds of the whole run, its errors and its shutdown included.
  pub server_start-readonly :
      (migrate : D → Action W (Unit {0})) (sequence : D → TddlConfig → Action W (Numbers W))
      (janitor : Parts W → Action W (Unit {0})) (flags : Flags) (w : W)
      → p.read_file ≡ read_file k
      → flags.readonly ≡ true
      → server_start (record p { packages = altered p.packages migrate sequence janitor }) flags w
        ≡ server_start p flags w
  unfolding server_start init_tracing init install sampling_ratio_of start_observability_server
      start_admin make_server write_limiter new_server http_server
  server_start-readonly migrate sequence janitor flags w reads given =
      continue-same (parse_config p flags w) _ _ (parse_config-readonly flags reads given w)
        (λ c readonly. rw (new_handler-altered p.packages migrate sequence janitor c readonly) refl)
