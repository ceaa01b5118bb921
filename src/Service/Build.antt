-- ===== src/Service/Build.antt =====
-- app/turl/service.go: newService, and the service as a whole, whose command side is missing in
-- read-only mode.
use turl.Base.{ℕ, Option, none, some, if◌then◌else◌}
use turl.Errors.{Result, follow}
use turl.Expiry.{Duration, Instant}
use turl.Base58.{Bytes}
use turl.Action.{Action, pure, panic, lift, ◌>>=◌, ◌>>◌}
use turl.Config.{ServerConfig}
use turl.Clients.{Gorm, new_mysql}
use turl.Cache.{Interface}
use turl.Cache.Build.{CachePackages, new_proxy}
use turl.Storage.{Database}
use turl.Tddl.{TddlConfig}
use turl.Service.{Parts, ping_deps, close_command, close_query}

-- The handle of a sequence: Next and Close.
pub record Numbers (W : Type 0) : Type 0 where
  pub next : Action W ℕ
  pub close : W → W

-- What newService calls: gorm, the statements that storage.New builds over a gorm.DB, AutoMigrate, the
-- goroutines that it starts, the caches' packages, tddl.New, and what both services take from the clock,
-- the validator and the counters.
pub record Packages (W D P : Type 0) : Type 0 where
  pub gorm : Gorm W D P
  pub statements : D → Database W
  pub auto_migrate : D → Action W (Unit {0})
  pub new_sequence : D → TddlConfig → Action W (Numbers W)
  pub log_stats : P → Action W (Unit {0})
  pub run_janitor : Parts W → Action W (Unit {0})
  pub caches : CachePackages W
  pub now : W → W × Instant
  pub validate : Bytes → Result (Unit {0})
  pub inc_shorten_created : W → W
  pub add_expired_reaped : ℕ → W → W

-- service
pub record Sides (W : Type 0) : Type 0 where
  pub command : Option (Parts W)
  pub query : Option (Parts W)

-- A method of one of the services, where the pointer to it is not nil.
abbrev if_present :
    {W : Type 0}
    → (Parts W → Action W (Unit {0}))
    → Action W (Unit {0})
    → Option (Parts W)
    → Action W (Unit {0})
if_present method otherwise none = otherwise
if_present method otherwise (some parts) = method parts

module _ {W D P : Type 0} (p : Packages W D P) where
  -- getDB: in debug mode a goroutine logs the statistics of the connections.
  unfoldable pub get_db : ServerConfig → Action W D
  get_db c = do
    config ← lift (follow c.mysql)
    db ← new_mysql p.gorm config
    sql_db ← p.gorm.db db
    if c.debug then p.log_stats sql_db else pure tt
    pure db

  -- The query service, which has no sequence.
  unfoldable pub query_side : Duration → D → Interface W → Parts W
  query_side ttl db cache = record {
    ttl = ttl;
    db = p.statements db;
    cache = cache;
    now = p.now;
    validate = p.validate;
    next = panic;
    close_sequence = λ w. w;
    inc_shorten_created = p.inc_shorten_created;
    add_expired_reaped = p.add_expired_reaped;
  }

  unfoldable pub command_side : Duration → D → Interface W → Numbers W → Parts W
  unfolding query_side
  command_side ttl db cache seq = record (query_side ttl db cache) {
    next = seq.next;
    close_sequence = seq.close;
  }

  -- c.Cache.Redis.TTL
  unfoldable pub cache_lifetime : ServerConfig → Action W Duration
  cache_lifetime c = do
    caches ← lift (follow c.cache)
    redis ← lift (follow caches.redis)
    pure redis.ttl

  -- The part of newService behind the test of read-only mode.
  unfoldable pub new_writing : ServerConfig → D → Interface W → Action W (Sides W)
  unfolding command_side query_side cache_lifetime
  new_writing c db cache = do
    p.auto_migrate db
    tddl_config ← lift (follow c.tddl)
    seq ← p.new_sequence db tddl_config
    cache_config ← lift (follow c.cache)
    write_cache ← new_proxy p.caches cache_config
    ttl ← cache_lifetime c
    p.run_janitor (command_side ttl db write_cache seq)
    pure (record {
      command = some (command_side ttl db write_cache seq);
      query = some (query_side ttl db cache);
    })

  unfoldable pub new_reading : ServerConfig → D → Interface W → Action W (Sides W)
  unfolding query_side cache_lifetime
  new_reading c db cache = do
    ttl ← cache_lifetime c
    pure (record { command = none; query = some (query_side ttl db cache) })

  -- newService
  unfoldable pub new_service : ServerConfig → Action W (Sides W)
  unfolding get_db new_reading new_writing
  new_service c = do
    db ← get_db c
    cache_config ← lift (follow c.cache)
    cache ← new_proxy p.caches cache_config
    if c.readonly then new_reading c db cache else new_writing c db cache

module _ {W : Type 0} where
  -- service.CheckHealth
  unfoldable pub check_health : Sides W → Action W (Unit {0})
  check_health s = if_present ping_deps (if_present ping_deps (pure tt) s.command) s.query

  -- service.Close
  unfoldable pub close_service : Sides W → Action W (Unit {0})
  close_service s = do
    if_present close_command (pure tt) s.command
    if_present close_query (pure tt) s.query
