-- ===== src/Service.antt =====
-- app/turl/service.go: the services behind the HTTP handlers. The database, the caches, the sequence,
-- the clock, the validator and the counters are parameters over the state `W` of the world.
pub mod Build
pub mod Honest
pub mod Modes
pub mod Remember
pub mod Grows
pub mod Served
pub mod Distant
pub mod Hit
pub mod Retrieve
pub mod Safety
pub mod Create
pub mod Reach
pub mod Indexed
pub mod Again
use turl.Base.{ℕ, Bool, true, false, Option, none, some, String, if◌then◌else◌, ltb, ◌==◌}
use turl.Base.Int.{ℤ, pos, ◌+ℤ◌, ltb_ℤ}
use turl.Base58.{Bytes, encode, decode}
use turl.Errors.{Error, Result, ok, err, panicked, expired, is_cache_miss, is_duplicated_key}
use turl.Expiry.{Instant, Duration, encode_cache_value, decode_cache_value, cache_ttl, is_expired}
use turl.Action.{Action, pure, raise, panic, lift, attempt, wrap, ◌>>=◌, ◌>>◌}
use turl.Cache.{Interface}
use turl.Storage
use turl.Storage.{Database, TinyUrl}

-- What a service is built from: the database and the cache of its layer, and the configured
-- lifetime of cache entries; time.Now; the test "required,http_url" of the validator; the sequence;
-- and the two counters.
pub record Parts (W : Type 0) : Type 0 where
  pub ttl : Duration
  pub db : Database W
  pub cache : Interface W
  pub now : W → W × Instant
  pub validate : Bytes → Result (Unit {0})
  pub next : Action W ℕ
  pub close_sequence : W → W
  pub inc_shorten_created : W → W
  pub add_expired_reaped : ℕ → W → W

-- model.TinyURL
pub record ModelUrl : Type 0 where
  pub short_url : Bytes
  pub long_url : Bytes
  pub created_at : Instant
  pub deleted_at : Option Instant
  pub expires_at : Option Instant

-- A new link, or the one that the database already has for the URL; the number that the short URL
-- spells, and the record.
pub record Stored : Type 0 where
  pub seq : ℕ
  pub found : TinyUrl

abbrev pub janitor_batch_size : ℕ
janitor_batch_size = 100

module _ {W : Type 0} (s : Parts W) where
  -- time.Now. It is read here also where a link has no expiry, and is then not used.
  unfoldable pub clock : Action W Instant
  clock w = let (w', t) = s.now w in (w', ok t)

  -- The cache entry of a link, whose failure is logged and forgotten.
  unfoldable pub remember : Bytes → Bytes → Option Instant → Action W (Unit {0})
  unfolding clock
  remember short long expires_at = do
    now ← clock
    attempt
        (s.cache.set short (encode_cache_value long expires_at) (cache_ttl now s.ttl expires_at))
    pure tt

  -- expiresAt: ttl > 0 means that the link expires.
  unfoldable pub expiry_of : Duration → Action W (Option Instant)
  unfolding clock
  expiry_of ttl =
      let bounded : Action W (Option Instant) = (do now ← clock; pure (some (now +ℤ ttl))) in
      if ltb_ℤ (pos 0) ttl then bounded else pure none

  -- What Create does with the reply of Insert.
  unfoldable pub after_insert : ℕ → Bytes → Result TinyUrl → Action W Stored
  after_insert seq long (ok r) =
      λ w. (s.inc_shorten_created w, ok (record { seq = seq; found = r }))
  after_insert seq long (err e) =
      let existing : Action W Stored = do
        r ← wrap "failed to get from db" (Storage.get_by_long_url s.db long)
        pure (record { seq = r.short; found = r })
      in if is_duplicated_key e then existing else wrap "failed to insert into db" (raise e)
  after_insert seq long panicked = panic

  -- commandService.Create
  unfoldable pub create : Bytes → Duration → Action W ModelUrl
  unfolding remember expiry_of after_insert clock
  create long ttl = do
    lift (s.validate long)
    seq ← wrap "failed to generate sequence" s.next
    expires_at ← expiry_of ttl
    reply ← attempt (Storage.insert s.db seq long expires_at)
    stored ← after_insert seq long reply
    remember (encode stored.seq) long stored.found.expires_at
    pure (record {
      short_url = encode stored.seq;
      long_url = long;
      created_at = stored.found.created_at;
      deleted_at = stored.found.deleted_at;
      expires_at = stored.found.expires_at;
    })

  -- One tick of runJanitor: an error is logged, and the loop goes on.
  unfoldable pub after_reap : Result ℕ → Action W (Unit {0})
  after_reap (ok n) = λ w. (if ltb 0 n then s.add_expired_reaped n w else w, ok tt)
  after_reap (err e) = pure tt
  after_reap panicked = panic

  unfoldable pub janitor_tick : Action W (Unit {0})
  unfolding after_reap clock
  janitor_tick = do
    now ← clock
    reply ← attempt (Storage.delete_expired s.db now janitor_batch_size)
    after_reap reply

  -- commandService.Delete
  unfoldable pub delete : Bytes → Action W (Unit {0})
  delete short = do seq ← lift (decode short); Storage.delete s.db seq; s.cache.del short

  -- What fromCache makes of a cached value, decoded or malformed.
  unfoldable pub after_decode : Option (Bytes × Option Instant) → Action W (Option Bytes)
  unfolding clock
  after_decode none = pure none
  after_decode (some (long, expires_at)) = do
    now ← clock
    if is_expired now expires_at then raise expired else pure (some long)

  unfoldable pub after_get : Result Bytes → Action W (Option Bytes)
  unfolding after_decode
  after_get (ok cached) = after_decode (decode_cache_value cached)
  after_get (err e) = if is_cache_miss e then pure none else raise e
  after_get panicked = panic

  -- fromCache: the URL on a live hit, none on a miss or a malformed entry.
  unfoldable pub from_cache : Bytes → Action W (Option Bytes)
  unfolding after_get
  from_cache key = do reply ← attempt (s.cache.get key); after_get reply

  -- The part of Retrieve behind a cache miss.
  unfoldable pub from_db : Bytes → ℕ → Action W Bytes
  unfolding remember clock
  from_db short seq = do
    r ← Storage.get_by_short_id s.db seq
    now ← clock
    let found : Action W Bytes = do remember short r.long_url r.expires_at; pure r.long_url
    if is_expired now r.expires_at then raise expired else found

  unfoldable pub on_miss : Bytes → ℕ → Option Bytes → Action W Bytes
  unfolding from_db
  on_miss short seq (some long) = pure long
  on_miss short seq none = from_db short seq

  -- queryService.Retrieve
  unfoldable pub retrieve : Bytes → Action W Bytes
  unfolding from_cache on_miss
  retrieve short = do seq ← lift (decode short); hit ← from_cache short; on_miss short seq hit

  -- queryService.GetByLong, whose result has no expiry.
  unfoldable pub get_by_long : Bytes → Action W ModelUrl
  get_by_long long = do
    lift (s.validate long)
    r ← Storage.get_by_long_url s.db long
    pure (record {
      short_url = encode r.short;
      long_url = r.long_url;
      created_at = r.created_at;
      deleted_at = r.deleted_at;
      expires_at = none;
    })

  -- pingDeps
  unfoldable pub ping_deps : Action W (Unit {0})
  ping_deps = do wrap "database not ready" (Storage.ping s.db); wrap "cache not ready" s.cache.ping

  -- queryService.Close
  unfoldable pub close_query : Action W (Unit {0})
  close_query = do Storage.close s.db; s.cache.close

  -- commandService.Close, after janitorStop is closed
  unfoldable pub close_command : Action W (Unit {0})
  close_command w = (do Storage.close s.db; s.cache.close) (s.close_sequence w)
