-- ===== src/Observability.antt =====
-- pkg/observability/server.go: the admin server, its endpoints and its readiness probe. The HTTP server
-- and the pprof handlers are parameters; the time limit of a probe is what its checks are given.
pub mod Readiness
use Prim.Native.String.{String}
use text.Mathlib.Text
use turl.Base.{ℕ, Bool, true, false, Option, none, some, List, [], ◌∷◌, ◌++◌, if◌then◌else◌}
use turl.Base.Int.{pos}
use turl.Expiry.{Duration}
use turl.Http.{HttpServer}
use turl.Errors.{Error, Result, ok, err, panicked}
use turl.Action.{Action, pure, attempt, panic, ◌>>=◌, ◌>>◌}
use turl.Config.{ObservabilityConfig, with_defaults}

-- A handler of the mux.
pub data Endpoint : Type 0 where
  liveness readiness metrics_endpoint pprof_index pprof_cmdline pprof_profile pprof_symbol
        pprof_trace :
      Endpoint

-- HealthCheck
abbrev pub HealthCheck : Type 0 → Type 0
HealthCheck W = Action W (Unit {0})

abbrev pub readiness_timeout : Duration
readiness_timeout = pos 3000000000

-- Server, with the server around its mux, the patterns of its mux and its checks by name.
pub record AdminServer (W : Type 0) : Type 0 where
  pub http : HttpServer
  pub mux : List (String × Endpoint)
  pub checks : List (String × HealthCheck W)

-- The body of an answer: the overall status, and what each check said, none standing for "ok".
pub record Answer : Type 0 where
  pub code : ℕ
  pub status : String
  pub results : List (String × Option Error)

-- m[name] = check
unfoldable pub put {ℓ} : {A : Type ℓ} → String → A → List (String × A) → List (String × A)
put name a [] = (name, a) ∷ []
put name a (e ∷ es) =
    let rest = put name a es in if Text.◌==◌ e.0 name then (name, a) ∷ es else e ∷ rest

-- Whether a pattern is on the mux.
unfoldable pub has_pattern : String → List (String × Endpoint) → Bool
has_pattern path [] = false
has_pattern path (e ∷ es) = if Text.◌==◌ e.0 path then true else has_pattern path es

-- registerPprof
abbrev pub pprof_routes : List (String × Endpoint)
pprof_routes =
    ("/debug/pprof/", pprof_index)
    ∷ ("/debug/pprof/cmdline", pprof_cmdline)
    ∷ ("/debug/pprof/profile", pprof_profile)
    ∷ ("/debug/pprof/symbol", pprof_symbol)
    ∷ ("/debug/pprof/trace", pprof_trace)
    ∷ []

-- What a check adds to the results, and whether the probe is still ready after it.
unfoldable pub outcome : Result (Unit {0}) → Option Error
outcome (err e) = some e
outcome _ = none

unfoldable pub passed : Bool → Result (Unit {0}) → Bool
passed ready (ok u) = ready
passed ready _ = false

module _ {W : Type 0} where
  -- New
  unfoldable pub new_admin : ObservabilityConfig → AdminServer W
  unfolding with_defaults
  new_admin c =
      let c' = with_defaults c in
      record {
        http = record {
          host = c'.admin_listen;
          port = c'.admin_port;
          read_header_timeout = readiness_timeout;
          read_timeout = pos 0;
          write_timeout = pos 0;
        };
        mux = ("/healthz", liveness) ∷ ("/readyz", readiness) ∷ pprof_routes;
        checks = [];
      }

  -- RegisterReadinessCheck
  unfoldable pub register_readiness_check : String → HealthCheck W → AdminServer W → AdminServer W
  unfolding put
  register_readiness_check name check s = record s { checks = put name check s.checks }

  -- SetMetricsHandler: the mux panics where the pattern is there.
  unfoldable pub set_metrics_handler : AdminServer W → Result (AdminServer W)
  unfolding has_pattern
  set_metrics_handler s =
      if has_pattern "/metrics" s.mux
      then panicked
      else ok (record s { mux = s.mux ++ ("/metrics", metrics_endpoint) ∷ [] })

  -- handleLiveness
  unfoldable pub handle_liveness : AdminServer W → Action W Answer
  handle_liveness s = pure (record { code = 200; status = "ok"; results = [] })

  -- The loop of handleReadiness, over the checks in the order in which the map is read, with `ready` and
  -- the results so far.
  unfoldable pub run_checks :
      List (String × HealthCheck W)
      → Bool
      → List (String × Option Error)
      → Action W (Bool × List (String × Option Error))
  unfolding outcome passed put
  run_checks [] ready results = pure (ready, results)
  run_checks ((name, check) ∷ checks) ready results = do
    reply ← attempt check
    let results' = put name (outcome reply) results
    run_checks checks (passed ready reply) results'

  unfoldable pub answer_of : Bool × List (String × Option Error) → Action W Answer
  answer_of (true, results) = pure (record { code = 200; status = "ok"; results = results })
  answer_of (false, results) =
      pure (record { code = 503; status = "unavailable"; results = results })

  -- handleReadiness, for the order in which the map of the checks is read.
  unfoldable pub handle_readiness :
      (List (String × HealthCheck W) → List (String × HealthCheck W))
      → AdminServer W
      → Action W Answer
  unfolding run_checks answer_of
  handle_readiness order s = do end ← run_checks (order s.checks) true []; answer_of end
