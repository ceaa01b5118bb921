-- ===== src/Service/Honest.antt =====
-- app/turl/service.go: where the packages behave as documented, so do the parts of the services that newService
-- builds over them.
use Prim.Native.String.{String}
use turl.Base.{ℕ, Option, none, some, List, Bool}
use turl.Base.Int.{ℤ, ◌≤ℤ◌, pos, ltb_ℤ}
use turl.Errors.{follow, invalid_capacity}
use turl.Expiry.{Duration}
use turl.Action.{lift, attempt}
use turl.Action.Gives.{Gives, gives-raise, gives-pure, gives-if, gives-bind, gives-after}
use turl.Cache.{Interface, Layer, local_cache, redis_cache, local, distributed}
use turl.Cache.Build.{CachePackages, new_local_cache, new_redis_cache, new_proxy, layered}
use turl.Cache.Contract.{View, IsQuiet, IsCache, quiet_refl}
use turl.Cache.Layers.{IsStore, IsBigCache, redis-IsCache, local-IsCache, metrics-IsCache}
use turl.Cache.Proxy.{proxy-IsCache}
use turl.Clients.{client}
use turl.Config.{ServerConfig, CacheConfig, LocalCacheConfig, RedisConfig}
use turl.Tddl.{TddlConfig}
use turl.Service.{Parts}
use turl.Service.Safety.{IsDatabase, IsHonest}
use turl.Service.Build.{
  Packages, Numbers, Sides, new_service, new_reading, new_writing, get_db, query_side, command_side,
  cache_lifetime,
}

module _ {W : Type 0} (view : View W) where
  open view use {Known}

  -- The packages of the caches: each client and each cache that they make behaves as documented.
  pub record AreCaches (p : CachePackages W) : Type 0 where
    pub client :
        (addr : List String) (t : Duration) (idle active : ℤ)
        → Gives (p.clients.new_universal_client addr t idle active) (IsStore view)
    pub big_cache :
        (t : Duration) (capacity memory : ℤ)
        → Gives (p.new_big_cache t capacity memory) (IsBigCache view)
    pub count : (l : Layer) (hit : Bool) (w : W) → IsQuiet view w (p.count l hit w)

  module _ (p : CachePackages W) (law : AreCaches p) where
    new_local_cache-IsCache : (c : LocalCacheConfig) → Gives (new_local_cache p c) (IsCache view)
    unfolding new_local_cache
    new_local_cache-IsCache c =
        gives-if (IsCache view) (ltb_ℤ (pos 0) c.capacity) _ _
          (λ e.
            gives-bind (p.new_big_cache c.ttl c.capacity c.max_memory) _
              (law.big_cache c.ttl c.capacity c.max_memory)
              (λ b is. gives-pure (IsCache view) (local_cache b) (local-IsCache view b is)))
          (λ e. gives-raise (IsCache view) invalid_capacity)

    new_redis_cache-IsCache : (c : RedisConfig) → Gives (new_redis_cache p c) (IsCache view)
    unfolding new_redis_cache client
    new_redis_cache-IsCache c =
        gives-bind (client p.clients c) _
          (gives-bind (p.clients.new_universal_client c.addr c.dial_timeout c.max_conn c.max_conn) _
            (law.client c.addr c.dial_timeout c.max_conn c.max_conn)
            (λ r is.
              gives-after (attempt (p.clients.instrument_tracing r)) _
                (λ u. gives-pure (IsStore view) r is)))
          (λ r is. gives-pure (IsCache view) (redis_cache r) (redis-IsCache view r is))

    layered-IsCache :
        (ttl : Duration) (far near : Interface W)
        → IsCache view far
        → IsCache view near
        → IsCache view (layered p ttl far near)
    unfolding layered
    layered-IsCache ttl far near is_far is_near =
        proxy-IsCache view _ (metrics-IsCache view p.count law.count distributed far is_far)
          (metrics-IsCache view p.count law.count local near is_near)

    new_proxy-IsCache : (c : CacheConfig) → Gives (new_proxy p c) (IsCache view)
    unfolding new_proxy
    new_proxy-IsCache c = gives-after (lift (follow c.local_cache)) _ (λ local_config.
        gives-bind (new_local_cache p local_config) _ (new_local_cache-IsCache local_config)
          (λ near is_near. gives-after (lift (follow c.redis)) _ (λ redis_config.
            gives-bind (new_redis_cache p redis_config) _ (new_redis_cache-IsCache redis_config)
              (λ far is_far.
                gives-pure (IsCache view) (layered p local_config.ttl far near)
                  (layered-IsCache local_config.ttl far near is_far is_near)))))

  -- The packages of the services.
  pub record AreHonest {D P : Type 0} (p : Packages W D P) : Type 0 where
    pub caches : AreCaches p.caches
    pub statements : (d : D) → IsDatabase view (p.statements d)
    pub new_sequence :
        (d : D) (c : TddlConfig)
        → Gives (p.new_sequence d c) (λ q. (w : W) → IsQuiet view w (q.next w).0)
    pub now : (w : W) → IsQuiet view w (p.now w).0
    pub now_time : (w : W) → view.time w ≤ℤ (p.now w).1
    pub inc_shorten_created : (w : W) → IsQuiet view w (p.inc_shorten_created w)
    pub add_expired_reaped : (n : ℕ) (w : W) → IsQuiet view w (p.add_expired_reaped n w)

  abbrev pub Honest : Option (Parts W) → Type 0
  Honest none = Unit
  Honest (some parts) = IsHonest view parts

  -- Each of the two services, where it is there.
  abbrev pub AllHonest : Sides W → Type 0
  AllHonest s = Honest s.command × Honest s.query

  module _ {D P : Type 0} (p : Packages W D P) (law : AreHonest p) where
    query_side-IsHonest :
        (ttl : Duration) (d : D) (cache : Interface W)
        → IsCache view cache
        → IsHonest view (query_side p ttl d cache)
    unfolding query_side
    query_side-IsHonest ttl d cache is = record {
      now = law.now;
      now_time = law.now_time;
      next = λ w. quiet_refl view w;
      inc_shorten_created = law.inc_shorten_created;
      add_expired_reaped = law.add_expired_reaped;
      db = law.statements d;
      cache = is;
    }

    command_side-IsHonest :
        (ttl : Duration) (d : D) (cache : Interface W) (seq : Numbers W)
        → IsCache view cache
        → ((w : W) → IsQuiet view w (seq.next w).0)
        → IsHonest view (command_side p ttl d cache seq)
    unfolding query_side command_side
    command_side-IsHonest ttl d cache seq is next = record {
      now = law.now;
      now_time = law.now_time;
      next = next;
      inc_shorten_created = law.inc_shorten_created;
      add_expired_reaped = law.add_expired_reaped;
      db = law.statements d;
      cache = is;
    }

    new_reading-AllHonest :
        (c : ServerConfig) (d : D) (cache : Interface W)
        → IsCache view cache
        → Gives (new_reading p c d cache) AllHonest
    unfolding new_reading
    new_reading-AllHonest c d cache is = gives-after (cache_lifetime p c) _ (λ ttl.
        gives-pure AllHonest (record { command = none; query = some (query_side p ttl d cache) })
          (tt, query_side-IsHonest ttl d cache is))

    new_writing-AllHonest :
        (c : ServerConfig) (d : D) (cache : Interface W)
        → IsCache view cache
        → Gives (new_writing p c d cache) AllHonest
    unfolding new_writing
    new_writing-AllHonest c d cache is = gives-after (p.auto_migrate d) _ (λ u.
        gives-after (lift (follow c.tddl)) _ (λ tddl.
          gives-bind (p.new_sequence d tddl) _ (law.new_sequence d tddl) (λ seq next.
            gives-after (lift (follow c.cache)) _ (λ config.
              gives-bind (new_proxy p.caches config) _
                (new_proxy-IsCache p.caches law.caches config)
                (λ writes is_writes. gives-after (cache_lifetime p c) _ (λ ttl.
                  gives-after (p.run_janitor (command_side p ttl d writes seq)) _ (λ u'.
                    gives-pure AllHonest
                      (record {
                        command = some (command_side p ttl d writes seq);
                        query = some (query_side p ttl d cache);
                      })
                      (
                        command_side-IsHonest ttl d writes seq is_writes next,
                        query_side-IsHonest ttl d cache is,
                      ))))))))

    -- Where the packages behave as documented, the parts of each service that newService builds, in
    -- either mode, behave as the service relies on.
    pub new_service-AllHonest : (c : ServerConfig) → Gives (new_service p c) AllHonest
    unfolding new_service
    new_service-AllHonest c = gives-after (get_db p c) _ (λ d.
        gives-after (lift (follow c.cache)) _ (λ config.
          gives-bind (new_proxy p.caches config) _ (new_proxy-IsCache p.caches law.caches config)
            (λ cache is.
              gives-if AllHonest c.readonly _ _ (λ e. new_reading-AllHonest c d cache is)
                (λ e. new_writing-AllHonest c d cache is))))
