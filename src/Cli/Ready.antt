-- ===== src/Cli/Ready.antt =====
-- A server that serverStart runs: the configuration that it has, and when it answers that it is ready.
use Prim.Native.String.{String}
use mathlib.Core.Path.{subst}
use turl.Base.{◌≡◌, ◌≢◌, ◌↔◌, ◌⊎◌, refl, sym, ap, ◌∙◌, ◌++◌, true, Option, some, List, [], ◌∷◌}
use turl.Errors.{ok, panicked, follow}
use turl.Action.{lift}
use turl.Action.Gives.{Made, gives-Made, continue-gives, Gives, gives-bind, gives-after, gives-pure}
use turl.Cache.{Redis}
use turl.Config.{ServerConfig, ObservabilityConfig, validate}
use turl.Config.Validation.{IsValid, validate_iff}
use turl.Logging.{new_logger}
use turl.Observability.{
  AdminServer, Answer, HealthCheck, handle_readiness, put, new_admin, register_readiness_check,
  set_metrics_handler, has_pattern, metrics_endpoint,
}
use turl.Observability.Readiness.{AllPass, NoPanic, handle_readiness_lem}
use turl.Handler.Build.{Handler, new_handler}
use turl.Routing.Server.{Server, make_server}
use turl.Shutdown.{OptionFunc}
use turl.Service.Build.{Packages, Sides, new_service, check_health}
use turl.Service.Modes.{
  reachable, AreHandles, new_service-check_health, HasRedis, new_service-HasRedis,
}
use turl.Cli.{Process, Flags, given, admin_server, parse_config, init_tracing, server_start}

module _ {W D P : Type 0} (p : Packages W D P) where
  -- The admin server of an enabled configuration, and what its readiness probe answers.
  abbrev pub IsProbe :
      (List (String × HealthCheck W) → List (String × HealthCheck W))
      → Option ObservabilityConfig
      → Sides W
      → W
      → D
      → Redis W
      → AdminServer W
      → Answer
      → Type 0
  IsProbe order config s w db r admin a =
      (admin_server config (check_health s) ≡ ok (some admin))
      × ((handle_readiness order admin w).1 ≡ ok a)
      × ((a.code ≡ 200) ⊎ (a.code ≡ 503))
      × ((a.code ≡ 200) ↔ ((reachable p db r w).1 ≡ ok tt))

  -- The admin server with its one check and the endpoint of the metrics.
  abbrev mounted : ObservabilityConfig → HealthCheck W → AdminServer W
  mounted c check = record (register_readiness_check "storage" check (new_admin c)) {
    mux = (new_admin {W = W} c).mux ++ ("/metrics", metrics_endpoint) ∷ [];
  }

  -- For a service that newService builds and an enabled admin server, the admin server is made, and where
  -- the pings do not panic its readiness probe answers, with status 200 exactly where the database and
  -- then redis answer their pings, through the handle and the client that were made from the
  -- configuration, and with status 503 otherwise. A map of one check is read as that check.
  pub readiness_iff :
      (order : List (String × HealthCheck W) → List (String × HealthCheck W)) (c : ServerConfig)
      (config : ObservabilityConfig) (w : W) (s : Sides W) (w' : W)
      → ((entry : String × HealthCheck W) → order (entry ∷ []) ≡ entry ∷ [])
      → (new_service p c w).1 ≡ ok s
      → config.enable ≡ true
      → (check_health s w').1 ≢ panicked
      → (db : D) × (r : Redis W) × (admin : AdminServer W) × (a : Answer) × IsProbe order
          (some config)
          s
          w'
          db
          r
          admin
          a
        × AreHandles p c db r
  unfolding admin_server new_admin register_readiness_check set_metrics_handler has_pattern put
  readiness_iff order c config w s w' single built enabled calm =
      let (db, r, handles, checks) = new_service-check_health p c w s built in
      let check = check_health s in
      let alone = single ("storage", check) in
      let (a, answers, codes, ready) =
        handle_readiness_lem order (mounted config check) w'
          (subst (λ l. NoPanic l w') (sym alone) (calm, tt)) in
      let same = ap (λ m. (m w').1) checks in
      (
        db,
        r,
        mounted config check,
        a,
        (
          rw enabled refl,
          answers,
          codes,
          (
            λ h. sym same ∙ (subst (λ l. AllPass l w') alone (ready.0 h)).0,
            λ h. ready.1 (subst (λ l. AllPass l w') (sym alone) (same ∙ h, tt)),
          ),
        ),
        handles,
      )

  new_handler-HasRedis : (c : ServerConfig) → Gives (new_handler p c) (λ h. HasRedis c)
  unfolding new_handler
  new_handler-HasRedis c =
      gives-bind (new_service p c) _ (new_service-HasRedis p c) (λ s redis. λ w h e. redis)

module _ {W D P E R T : Type 0} (p : Process W D P E R T) where
  -- What Validate accepts.
  abbrev pub Accepted : ServerConfig → Type 0
  Accepted conf = (validate p.struct conf ≡ ok tt) × IsValid conf

  pub parse_config-Accepted : (flags : Flags) → Gives (parse_config p flags) Accepted
  unfolding parse_config
  parse_config-Accepted flags = gives-after (p.read_file flags.file _) _ (λ conf.
      gives-bind (lift (validate p.struct conf)) _
        (λ w u h. (h, ((validate_iff p.struct conf).0 h).1))
        (λ u valid. gives-pure Accepted conf valid))

  -- The configuration that the flags and the file give in this world.
  abbrev pub IsConfig : Flags → W → ServerConfig → Type 0
  IsConfig flags w conf =
      (p.read_file flags.file (given "readonly" flags.readonly ++ given "debug" flags.debug) w).1
      ≡ ok conf

  parse_config-IsConfig :
      (flags : Flags) (w : W) (conf : ServerConfig)
      → (parse_config p flags w).1 ≡ ok conf
      → IsConfig flags w conf
  unfolding parse_config
  parse_config-IsConfig flags w conf h =
      continue-gives
        (p.read_file flags.file (given "readonly" flags.readonly ++ given "debug" flags.debug) w) _
        (λ c e. e)
        (λ c e.
          gives-after (lift (validate p.struct c)) _
            (λ u. gives-pure (λ d. IsConfig flags w d) c e))
        conf h

  -- What a start of the server has had: the configuration of its flags, which was accepted and has a
  -- section for redis; a handler and a server made from this same configuration; and a listener for
  -- this server and this handler.
  abbrev pub Started : Flags → W → Type 0
  Started flags w =
      (conf : ServerConfig) × IsConfig flags w conf
      × Accepted conf
      × HasRedis conf
      × ((handler : Handler W) × Made (new_handler p.packages conf) handler
          × ((server : Server W) × Made (make_server p.packages.caches.clients conf) server
              × ((stop : OptionFunc W) × Made (p.listen server handler) stop)))

  -- A start of the server ends without an error only where its flags and the file give a configuration that
  -- Validate accepts, which then has a request timeout of at least a second and a log configuration whose
  -- writers and format are known, and that has a section for redis; and it then has made its handler
  -- and its server from this configuration, and listened with them.
  pub server_start-Started :
      (flags : Flags) (w : W) → (server_start p flags w).1 ≡ ok tt → Started flags w
  unfolding server_start
  server_start-Started flags w =
      continue-gives {P = λ conf. IsConfig flags w conf × Accepted conf} {Q = λ u. Started flags w}
        (parse_config p flags w) _
        (λ conf h. (parse_config-IsConfig flags w conf h, parse_config-Accepted flags w conf h))
        (λ conf (is, accepted). gives-after (lift (follow conf.log)) _ (λ log.
          gives-after (lift (new_logger log)) _ (λ logger.
            gives-after (p.set_default logger) _ (λ u.
              gives-after (init_tracing p conf.observability) _ (λ tracing.
                gives-bind
                  {P = λ handler. Made (new_handler p.packages conf) handler × HasRedis conf}
                  {Q = λ u'. Started flags w} (new_handler p.packages conf) _
                  (λ v handler h. ((v, h), new_handler-HasRedis p.packages conf v handler h))
                  (λ handler (built, redis).
                    gives-bind (make_server p.packages.caches.clients conf) _
                      (gives-Made (make_server p.packages.caches.clients conf))
                      (λ server made.
                        gives-bind (p.listen server handler) _
                          (gives-Made (p.listen server handler))
                          (λ stop listened. λ w' u' h. (
                            conf,
                            is,
                            accepted,
                            redis,
                            (handler, built, (server, made, (stop, listened))),
                          )))))))))
        tt
