-- ===== src/Cache.antt =====
-- pkg/cache: the cache interface, its redis and in-process implementations, the counting decorator
-- and the proxy over two layers. The redis client, bigcache, the random numbers and the counters
-- are parameters over the state `W` of the world.
pub mod Build
pub mod Contract
pub mod Layers
pub mod Accounts
pub mod Proxy
pub mod Fresh
use turl.Base.{ℕ, zero, suc, ◌+◌, ◌/◌, Bool, true, false, ltb, ◌==◌, if◌then◌else◌, length, String}
use turl.Base.Int.{ℤ, pos, negsuc, ◌+ℤ◌, to_word64, of_word64}
use turl.Base58.{Bytes}
use turl.Errors.{
  Error, Result, ok, err, panicked, cache_miss, is_cache_miss, is_redis_nil, is_entry_not_found,
  invalid_capacity,
}
use turl.Expiry.{Duration}
use turl.Action.{Action, pure, raise, panic, attempt, wrap, ◌>>=◌, ◌>>◌}

-- cache.Interface
pub record Interface (W : Type 0) : Type 0 where
  pub set : Bytes → Bytes → Duration → Action W (Unit {0})
  pub get : Bytes → Action W Bytes
  pub del : Bytes → Action W (Unit {0})
  pub ping : Action W (Unit {0})
  pub close : Action W (Unit {0})

-- The commands of the redis client that the cache uses, and rand.IntN for a positive bound.
pub record Redis (W : Type 0) : Type 0 where
  pub set_ex : Bytes → Bytes → Duration → Action W (Unit {0})
  pub get : Bytes → Action W Bytes
  pub del : Bytes → Action W (Unit {0})
  pub ping : Action W (Unit {0})
  pub close : Action W (Unit {0})
  pub int_n : ℕ → Action W ℕ

-- bigcache.BigCache
pub record BigCache (W : Type 0) : Type 0 where
  pub set : Bytes → Bytes → Action W (Unit {0})
  pub get : Bytes → Action W Bytes
  pub delete : Bytes → Action W (Unit {0})
  pub close : Action W (Unit {0})

-- The layers of the cache metrics.
pub data Layer : Type 0 where
  local distributed : Layer

-- metrics.RecordCacheResult
abbrev pub Counter : Type 0 → Type 0
Counter W = Layer → Bool → W → W

-- int(ttl / 10), which rounds towards zero; the argument of rand.IntN, none where it panics.
unfoldable pub tenth : Duration → ℕ
tenth (pos n) = n / 10
tenth (negsuc n) = 0

-- ttl += time.Duration(j), in an int64
unfoldable pub jittered : Duration → ℕ → Duration
jittered ttl j = of_word64 (to_word64 (ttl +ℤ pos j))

module _ {W : Type 0} (r : Redis W) where
  unfoldable pub redis_set : Bytes → Bytes → Duration → Action W (Unit {0})
  redis_set k v ttl =
      let jitter : Action W (Unit {0}) = do j ← r.int_n (tenth ttl); r.set_ex k v (jittered ttl j)
      in if tenth ttl == 0 then panic else jitter

  -- redis.Nil becomes ErrCacheMiss.
  unfoldable pub redis_reply : Result Bytes → Action W Bytes
  redis_reply (ok value) = pure value
  redis_reply (err e) = if is_redis_nil e then raise cache_miss else raise e
  redis_reply panicked = panic

  unfoldable pub redis_get : Bytes → Action W Bytes
  unfolding redis_reply
  redis_get k = do reply ← attempt (r.get k); redis_reply reply

  unfoldable pub redis_cache : Interface W
  unfolding redis_set redis_get
  redis_cache = record {
    set = redis_set;
    get = redis_get;
    del = r.del;
    ping = r.ping;
    close = r.close;
  }

module _ {W : Type 0} (b : BigCache W) where
  unfoldable pub local_reply : Result Bytes → Action W Bytes
  local_reply (ok value) = pure value
  local_reply (err e) = if is_entry_not_found e then raise cache_miss else raise e
  local_reply panicked = panic

  unfoldable pub local_get : Bytes → Action W Bytes
  unfolding local_reply
  local_get k = do reply ← attempt (b.get k); local_reply reply

  unfoldable pub local_deleted : Result (Unit {0}) → Action W (Unit {0})
  local_deleted (ok u) = pure tt
  local_deleted (err e) = if is_entry_not_found e then pure tt else raise e
  local_deleted panicked = panic

  unfoldable pub local_del : Bytes → Action W (Unit {0})
  unfolding local_deleted
  local_del k = do reply ← attempt (b.delete k); local_deleted reply

  -- The duration of a Set is not used, and a Ping always succeeds.
  unfoldable pub local_cache : Interface W
  unfolding local_get local_del
  local_cache = record {
    set = λ k v ttl. b.set k v;
    get = local_get;
    del = local_del;
    ping = pure tt;
    close = b.close;
  }

module _ {W : Type 0} (count : Counter W) (layer : Layer) (inner : Interface W) where
  -- metricsCache.Get, after the inner cache has answered
  unfoldable pub counted : W × Result Bytes → W × Result Bytes
  counted (w, ok v) = (count layer true w, ok v)
  counted (w, err e) = if is_cache_miss e then (count layer false w, err e) else (w, err e)
  counted (w, panicked) = (w, panicked)

  unfoldable pub metrics_cache : Interface W
  unfolding counted
  metrics_cache = record inner { get = λ k w. counted (inner.get k w) }

-- proxy
pub record ProxyLayers (W : Type 0) : Type 0 where
  pub distributed_cache : Interface W
  pub local_cache : Interface W
  pub local_cache_ttl : Duration

module _ {W : Type 0} (p : ProxyLayers W) where
  unfoldable pub proxy_set : Bytes → Bytes → Duration → Action W (Unit {0})
  proxy_set k v ttl = do
    wrap "failed to set distributed cache" (p.distributed_cache.set k v ttl)
    wrap "failed to set local cache" (p.local_cache.set k v ttl)

  -- The deferred function fills the local cache with a value that is not empty; its error is logged.
  unfoldable pub fill_local : Bytes → Bytes → Action W Bytes
  fill_local k long =
      let fill : Action W Bytes = do attempt (p.local_cache.set k long p.local_cache_ttl); pure long
      in if length long == 0 then pure long else fill

  -- What the proxy does with the reply of the local cache.
  unfoldable pub after_local : Bytes → Result Bytes → Action W Bytes
  unfolding fill_local
  after_local k (ok long) = pure long
  after_local k (err e) =
      let remote : Action W Bytes = do long ← p.distributed_cache.get k; fill_local k long
      in if is_cache_miss e then remote else raise e
  after_local k panicked = panic

  unfoldable pub proxy_get : Bytes → Action W Bytes
  unfolding after_local
  proxy_get k = do reply ← attempt (p.local_cache.get k); after_local k reply

  unfoldable pub proxy_del : Bytes → Action W (Unit {0})
  proxy_del k = do
    wrap "failed to delete distributed cache" (p.distributed_cache.del k)
    wrap "failed to delete local cache" (p.local_cache.del k)

  unfoldable pub proxy_ping : Action W (Unit {0})
  proxy_ping = do
    wrap "distributed cache unreachable" p.distributed_cache.ping
    wrap "local cache unreachable" p.local_cache.ping

  unfoldable pub proxy_close : Action W (Unit {0})
  proxy_close = do p.distributed_cache.close; p.local_cache.close

  unfoldable pub proxy : Interface W
  unfolding proxy_set proxy_get proxy_del proxy_ping proxy_close
  proxy = record {
    set = proxy_set;
    get = proxy_get;
    del = proxy_del;
    ping = proxy_ping;
    close = proxy_close;
  }
