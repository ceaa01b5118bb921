-- ===== src/Cache/Build.antt =====
-- pkg/cache: the constructors of the caches, from their configuration.
use turl.Base.{if◌then◌else◌}
use turl.Base.Int.{ℤ, pos, ltb_ℤ}
use turl.Errors.{follow, invalid_capacity}
use turl.Expiry.{Duration}
use turl.Action.{Action, pure, raise, lift, ◌>>=◌}
use turl.Config.{CacheConfig, LocalCacheConfig, RedisConfig}
use turl.Clients.{RedisClients, client}
use turl.Cache.{
  Interface, BigCache, Counter, local, distributed, redis_cache, local_cache, metrics_cache, proxy,
}

-- What the caches are built with: the redis clients, bigcache.New of a lifetime, an expected number of
-- entries and a bound of megabytes, and the counters.
pub record CachePackages (W : Type 0) : Type 0 where
  pub clients : RedisClients W
  pub new_big_cache : Duration → ℤ → ℤ → Action W (BigCache W)
  pub count : Counter W

module _ {W : Type 0} (p : CachePackages W) where
  -- newLocalCache
  unfoldable pub new_local_cache : LocalCacheConfig → Action W (Interface W)
  new_local_cache c =
      let made : Action W (Interface W) = do
        b ← p.new_big_cache c.ttl c.capacity c.max_memory
        pure (local_cache b)
      in if ltb_ℤ (pos 0) c.capacity then made else raise invalid_capacity

  -- newRedisCache
  unfoldable pub new_redis_cache : RedisConfig → Action W (Interface W)
  new_redis_cache c = do rdb ← client p.clients c; pure (redis_cache rdb)

  -- The interface of two layers, each counted under its own name.
  unfoldable pub layered : Duration → Interface W → Interface W → Interface W
  layered ttl remote local_layer = proxy (record {
    distributed_cache = metrics_cache p.count distributed remote;
    local_cache = metrics_cache p.count local local_layer;
    local_cache_ttl = ttl;
  })

  -- newProxy: the local layer first. Its configuration and that of redis are pointers that it follows.
  unfoldable pub new_proxy : CacheConfig → Action W (Interface W)
  unfolding new_local_cache new_redis_cache layered
  new_proxy c = do
    local_config ← lift (follow c.local_cache)
    lc ← new_local_cache local_config
    redis_config ← lift (follow c.redis)
    rc ← new_redis_cache redis_config
    pure (layered local_config.ttl rc lc)
