-- ===== src/Service/Modes.antt =====
-- app/turl/service.go: what newService builds in read-only mode, and what a readiness check of any service
-- that it builds asks.
use mathlib.Core.Path.{fun_ext, ap₂}
use turl.Base.{◌≡◌, refl, ap, true, none, some, String}
use turl.Base.Int.{pos, ltb_ℤ}
use turl.Errors.{Result, ok, err, panicked, follow, invalid_capacity}
use turl.Action.{Action, pure, lift, wrap, continue, ◌>>◌}
use turl.Action.Gives.{
  Gives, Made, gives-Made, gives-mono, followed, gives-raise, gives-pure, gives-if, gives-bind,
  gives-after,
}
use turl.Expiry.{Duration}
use turl.Clients.{client}
use turl.Config.{ServerConfig, CacheConfig, RedisConfig, LocalCacheConfig}
use turl.Cache.{
  Interface, Redis, redis_cache, local_cache, metrics_cache, proxy, proxy_ping, BigCache,
}
use turl.Cache.Build.{new_proxy, new_local_cache, new_redis_cache, layered, CachePackages}
use turl.Storage
use turl.Storage.{Database}
use turl.Tddl.{TddlConfig}
use turl.Service.{Parts, ping_deps}
use turl.Service.Build.{
  Packages, Numbers, Sides, new_service, new_reading, new_writing, check_health, get_db, query_side,
  command_side, cache_lifetime,
}

-- A cache's configuration with a section for redis.
abbrev pub HasRedis : ServerConfig → Type 0
HasRedis c =
    (config : CacheConfig) × (c.cache ≡ some config)
    × ((redis : RedisConfig) × (config.redis ≡ some redis))

module _ {W : Type 0} where
  -- A layer that always answers adds nothing to the layer before it.
  continue-answered :
      (s : String) (r : W × Result (Unit {0})) → continue r (λ _. wrap s (pure tt)) ≡ r
  continue-answered s (w, ok u) = refl
  continue-answered s (w, err e) = refl
  continue-answered s (w, panicked) = refl

module _ {W : Type 0} (p : CachePackages W) where
  -- A client that was made from the section for redis of a configuration of the caches.
  abbrev pub IsClient : CacheConfig → Redis W → Type 0
  IsClient c r = (redis : RedisConfig) × (c.redis ≡ some redis) × Made (client p.clients redis) r

  -- A cache whose far layer is this client of redis and whose near layer is in the process.
  abbrev IsOverRedis : CacheConfig → Interface W → Type 0
  IsOverRedis c cache =
      (ttl : Duration) × (r : Redis W) × (b : BigCache W) × (cache
        ≡ layered p ttl (redis_cache r) (local_cache b))
      × IsClient c r

  abbrev IsInProcess : Interface W → Type 0
  IsInProcess i = (b : BigCache W) × (i ≡ local_cache b)

  abbrev IsRedis : RedisConfig → Interface W → Type 0
  IsRedis c i = (r : Redis W) × (i ≡ redis_cache r) × Made (client p.clients c) r

  new_local_cache_lem : (c : LocalCacheConfig) → Gives (new_local_cache p c) IsInProcess
  unfolding new_local_cache
  new_local_cache_lem c =
      gives-if IsInProcess (ltb_ℤ (pos 0) c.capacity) _ _
        (λ e.
          gives-after (p.new_big_cache c.ttl c.capacity c.max_memory) _
            (λ b. gives-pure IsInProcess (local_cache b) (b, refl)))
        (λ e. gives-raise IsInProcess invalid_capacity)

  new_redis_cache_lem : (c : RedisConfig) → Gives (new_redis_cache p c) (IsRedis c)
  unfolding new_redis_cache
  new_redis_cache_lem c =
      gives-bind (client p.clients c) _ (gives-Made (client p.clients c))
        (λ r made. gives-pure (IsRedis c) (redis_cache r) (r, refl, made))

  new_proxy_lem : (c : CacheConfig) → Gives (new_proxy p c) (IsOverRedis c)
  unfolding new_proxy
  new_proxy_lem c = gives-after (lift (follow c.local_cache)) _ (λ local_config.
      gives-bind (new_local_cache p local_config) _ (new_local_cache_lem local_config) (λ lc near.
        gives-bind (lift (follow c.redis)) _ (followed c.redis) (λ redis_config configured.
          gives-bind (new_redis_cache p redis_config) _ (new_redis_cache_lem redis_config)
            (λ rc far. gives-pure (IsOverRedis c) (layered p local_config.ttl rc lc) (
              local_config.ttl,
              far.0,
              near.0,
              ap₂ (layered p local_config.ttl) far.1 near.1,
              (redis_config, configured, far.2),
            )))))

  new_proxy-redis :
      (c : CacheConfig)
      → Gives (new_proxy p c) (λ cache. (redis : RedisConfig) × (c.redis ≡ some redis))
  unfolding new_proxy
  new_proxy-redis c = gives-after (lift (follow c.local_cache)) _ (λ local_config.
      gives-after (new_local_cache p local_config) _ (λ lc.
        gives-bind (lift (follow c.redis)) _ (followed c.redis)
          (λ redis configured. λ w cache h. (redis, configured))))

module _ {W D P : Type 0} (p : Packages W D P) where
  -- The checks of a service over a handle of the database and a client of redis.
  abbrev pub reachable : D → Redis W → Action W (Unit {0})
  reachable d r = do
    wrap "database not ready" (Storage.ping (p.statements d))
    wrap "cache not ready" (wrap "distributed cache unreachable" r.ping)

  -- The handle of the database and the client of redis that were made from a configuration.
  abbrev pub AreHandles : ServerConfig → D → Redis W → Type 0
  AreHandles c db r =
      Made (get_db p c) db
      × ((config : CacheConfig) × (c.cache ≡ some config) × IsClient p.caches config r)

  -- The query service of a service, over a database and a cache in front of redis.
  abbrev Queries : CacheConfig → D → Sides W → Type 0
  Queries config db s =
      (ttl : Duration) × (cache : Interface W) × (s.query ≡ some (query_side p ttl db cache))
      × IsOverRedis p.caches config cache

  new_reading_lem :
      (c : ServerConfig) (config : CacheConfig) (db : D) (cache : Interface W)
      → IsOverRedis p.caches config cache
      → Gives (new_reading p c db cache) (Queries config db)
  unfolding new_reading
  new_reading_lem c config db cache over = gives-after (cache_lifetime p c) _ (λ ttl.
      gives-pure (Queries config db)
        (record { command = none; query = some (query_side p ttl db cache) })
        (ttl, cache, refl, over))

  new_writing_lem :
      (c : ServerConfig) (config : CacheConfig) (db : D) (cache : Interface W)
      → IsOverRedis p.caches config cache
      → Gives (new_writing p c db cache) (Queries config db)
  unfolding new_writing
  new_writing_lem c config db cache over = gives-after (p.auto_migrate db) _ (λ u.
      gives-after (lift (follow c.tddl)) _ (λ tddl. gives-after (p.new_sequence db tddl) _ (λ seq.
        gives-after (lift (follow c.cache)) _ (λ config'.
          gives-after (new_proxy p.caches config') _ (λ writes.
            gives-after (cache_lifetime p c) _ (λ ttl.
              gives-after (p.run_janitor (command_side p ttl db writes seq)) _ (λ u'.
                gives-pure (Queries config db)
                  (record {
                    command = some (command_side p ttl db writes seq);
                    query = some (query_side p ttl db cache);
                  })
                  (ttl, cache, refl, over))))))))

  -- A service over what was made from its configuration.
  abbrev IsOver : ServerConfig → Sides W → Type 0
  IsOver c s =
      (db : D) × Made (get_db p c) db
      × ((config : CacheConfig) × (c.cache ≡ some config) × Queries config db s)

  new_service_lem : (c : ServerConfig) → Gives (new_service p c) (IsOver c)
  unfolding new_service
  new_service_lem c = gives-bind (get_db p c) _ (gives-Made (get_db p c)) (λ db made.
      gives-bind (lift (follow c.cache)) _ (followed c.cache) (λ config configured.
        gives-bind (new_proxy p.caches config) _ (new_proxy_lem p.caches config) (λ cache over.
          gives-if (IsOver c) c.readonly _ _
            (λ e.
              gives-mono (new_reading p c db cache)
                (λ s queries. (db, made, (config, configured, queries)))
                (new_reading_lem c config db cache over))
            (λ e.
              gives-mono (new_writing p c db cache)
                (λ s queries. (db, made, (config, configured, queries)))
                (new_writing_lem c config db cache over)))))

  abbrev IsReading : Sides W → Type 0
  IsReading s = s.command ≡ none

  new_service-IsReading : (c : ServerConfig) → c.readonly ≡ true → Gives (new_service p c) IsReading
  unfolding new_service new_reading
  new_service-IsReading c readonly = gives-after (get_db p c) _ (λ db.
      gives-after (lift (follow c.cache)) _ (λ config.
        gives-after (new_proxy p.caches config) _ (λ cache.
          gives-if IsReading c.readonly _ _
            (λ e. gives-after (cache_lifetime p c) _ (λ ttl. gives-pure IsReading _ refl))
            (λ e. absurd cc))))

  -- In read-only mode nothing depends on how the tables are migrated, how a sequence is made or what the
  -- janitor does, since none of these is called, and a service that is built has no command side.
  pub new_service_readonly :
      (migrate : D → Action W (Unit {0})) (sequence : D → TddlConfig → Action W (Numbers W))
      (janitor : Parts W → Action W (Unit {0})) (c : ServerConfig) (w : W)
      → c.readonly ≡ true
      → (new_service
            (record p { auto_migrate = migrate; new_sequence = sequence; run_janitor = janitor })
            c
            w
          ≡ new_service p c w)
        × ((s : Sides W) → (new_service p c w).1 ≡ ok s → s.command ≡ none)
  unfolding new_service new_reading
  new_service_readonly migrate sequence janitor c w readonly =
      (rw readonly refl, λ s h. new_service-IsReading c readonly w s h)

  check_health-reachable :
      (s : Sides W) (ttl : Duration) (db : D) (cache : Interface W) (ttl' : Duration) (r : Redis W)
      (b : BigCache W)
      → s.query ≡ some (query_side p ttl db cache)
      → cache ≡ layered p.caches ttl' (redis_cache r) (local_cache b)
      → check_health s ≡ reachable db r
  unfolding check_health ping_deps query_side layered proxy proxy_ping metrics_cache redis_cache
      local_cache
  check_health-reachable s ttl db cache ttl' r b query over =
      rw (query, over)
        (ap
          (λ m.
            wrap "database not ready" (Storage.ping (p.statements db)) >> wrap "cache not ready" m)
          (fun_ext (λ w.
            continue-answered "local cache unreachable"
              (wrap "distributed cache unreachable" r.ping w))))

  -- The readiness check of a service that newService builds, in either mode, asks the database and then
  -- redis, through one handle of each that was made from the configuration, and nothing else: the cache in the process has no part in it.
  pub new_service-check_health :
      (c : ServerConfig) (w : W) (s : Sides W)
      → (new_service p c w).1 ≡ ok s
      → (db : D) × (r : Redis W) × AreHandles c db r × (check_health s ≡ reachable db r)
  unfolding check_health ping_deps
  new_service-check_health c w s h =
      let (db, made, (config, configured, (ttl, cache, query, (ttl', r, b, over, client)))) =
        new_service_lem c w s h in
      (
        db,
        r,
        (made, (config, configured, client)),
        check_health-reachable s ttl db cache ttl' r b query over,
      )

  -- A service is built only from a configuration that has a section for redis, in either mode. Without one
  -- newService ends with an error or a panic, though the section is not required by a struct tag.
  pub new_service-HasRedis :
      (c : ServerConfig) (w : W) (s : Sides W) → (new_service p c w).1 ≡ ok s → HasRedis c
  unfolding new_service
  new_service-HasRedis c = gives-after (get_db p c) _ (λ db.
      gives-bind (lift (follow c.cache)) _ (followed c.cache) (λ config configured.
        gives-bind (new_proxy p.caches config) _ (new_proxy-redis p.caches config)
          (λ cache redis. λ w s h. (config, configured, redis))))
