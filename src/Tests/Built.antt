-- ===== src/Tests/Built.antt =====
-- A handler that is built over the world in memory, and one of its redirects.
use mathlib.Core.Path.{subst}
use turl.Base.{ℕ, ◌≡◌, refl, ap, ◌∙◌, sym, Option, none, some, [], ◌∷◌, inl, inr, arith}
use turl.Base.Int.{pos, of_word64, to_word64}
use turl.Base58.{Bytes, codes, decode, encode, encode_loop}
use turl.Base58
use turl.Storage
use turl.Errors.{ok}
use turl.Expiry.{
  cache_ttl, Instant, is_expired, encode_cache_value, decode_cache_value, put_uint64, uint64,
}
use turl.Expiry.Codec.{IsStorable}
use turl.Action.{pure}
use turl.Action.Gives.{gives-pure}
use turl.Tests.Services.{url, key, row, status_found}
use turl.Cache.{Interface, Redis, BigCache, proxy, metrics_cache, tenth, redis_cache, local_cache}
use turl.Cache.Build.{CachePackages, layered, new_proxy}
use turl.Cache.Contract.{IsQuiet, quiet_refl}
use turl.Cache.Layers.{IsStore, IsBigCache}
use turl.Clients.{Gorm, new_mysql, client}
use turl.Handler.{Service, redirect, redirected, after_retrieve}
use turl.Handler.Build.{Handler, new_handler, sides_service, serve_all_sides}
use turl.Handler.Built.{IsLink, after, new_handler-redirect}
use turl.Service.{retrieve, create}
use turl.Service.Build.{Packages, Numbers, new_service, query_side, command_side}
use turl.Service.Honest.{AreCaches, AreHonest}
use turl.Service.Reach.{creating}
use turl.Tests.Start.{config}
use turl.Tests.World.{
  World, parts, view, start, honest, start-IsCoherent, memory, memory-IsCache, database,
  database-IsDatabase,
}

abbrev gorm : Gorm World ℕ ℕ
gorm = record {
  open_db = λ dsn. pure 0;
  use_tracing = λ d. pure tt;
  db = λ d. pure 0;
  set_max_idle_conns = λ p n. pure tt;
  set_max_open_conns = λ p n. pure tt;
  set_conn_max_lifetime = λ p t. pure tt;
  set_conn_max_idle_time = λ p t. pure tt;
}

abbrev redis : Redis World
redis = record {
  set_ex = memory.set;
  get = memory.get;
  del = memory.del;
  ping = pure tt;
  close = pure tt;
  int_n = λ n. pure 0;
}

abbrev big_cache : BigCache World
big_cache = record {
  set = λ k v. memory.set k v (pos 0);
  get = memory.get;
  delete = memory.del;
  close = pure tt;
}

abbrev caches : CachePackages World
caches = record {
  clients = record {
    new_universal_client = λ addr t idle active. pure redis;
    instrument_tracing = λ r. pure tt;
  };
  new_big_cache = λ ttl capacity memory. pure big_cache;
  count = λ layer hit w. w;
}

abbrev numbers : Numbers World
numbers = record { next = parts.next; close = λ w. w }

abbrev packages : Packages World ℕ ℕ
packages = record {
  gorm = gorm;
  statements = λ d. database;
  auto_migrate = λ d. pure tt;
  new_sequence = λ d c. pure numbers;
  log_stats = λ p. pure tt;
  run_janitor = λ s. pure tt;
  caches = caches;
  now = λ w. (w, pos 1000);
  validate = λ l. ok tt;
  inc_shorten_created = λ w. w;
  add_expired_reaped = λ n w. w;
}

redis-IsStore : IsStore view redis
redis-IsStore = record {
  set_ex = memory-IsCache.set;
  get = memory-IsCache.get;
  get_ok = memory-IsCache.get_ok;
  del = memory-IsCache.del;
  int_n = λ n w. quiet_refl view w;
}

big_cache-IsBigCache : IsBigCache view big_cache
big_cache-IsBigCache = record {
  set = λ k v w. memory-IsCache.set k v (pos 0) w;
  get = memory-IsCache.get;
  get_ok = memory-IsCache.get_ok;
  delete = memory-IsCache.del;
}

caches-AreCaches : AreCaches view caches
caches-AreCaches = record {
  client = λ addr t idle active. gives-pure (IsStore view) redis redis-IsStore;
  big_cache = λ t capacity memory. gives-pure (IsBigCache view) big_cache big_cache-IsBigCache;
  count = λ l hit w. quiet_refl view w;
}

next-IsQuiet : (w : World) → IsQuiet view w (parts.next w).0
next-IsQuiet w = honest.next w

packages-AreHonest : AreHonest view packages
packages-AreHonest = record {
  caches = caches-AreCaches;
  statements = λ d. database-IsDatabase;
  new_sequence =
      λ d c. gives-pure (λ q. (w : World) → IsQuiet view w (q.next w).0) numbers next-IsQuiet;
  now = λ w. quiet_refl view w;
  now_time = λ w. omega arith;
  inc_shorten_created = λ w. quiet_refl view w;
  add_expired_reaped = λ n w. quiet_refl view w;
}

abbrev cache : Interface World
cache = layered caches (pos 1) (redis_cache redis) (local_cache big_cache)

abbrev handler : Handler World
handler = record {
  domain = codes "localhost";
  sides = record {
    command = some (command_side packages (pos 60000000000) 0 cache numbers);
    query = some (query_side packages (pos 60000000000) 0 cache);
  };
}

handler_run : (new_handler packages config start).1 ≡ ok handler
unfolding new_handler new_service new_mysql new_proxy client
handler_run = refl

abbrev entry : Bytes × Bytes
entry = (key, encode_cache_value url none)

-- The world once the link is created, with its entry in both layers of the cache.
abbrev created : World
created = record { links = row ∷ []; deleted = []; cached = entry ∷ entry ∷ []; count = 656356769 }

after_run : after packages handler (creating url (pos 0) ∷ []) start ≡ created
unfolding serve_all_sides create command_side parts Storage.insert layered proxy metrics_cache
    redis_cache tenth cache_ttl local_cache encode Base58.reverse encode_loop Base58.chars
after_run = refl

retrieve_run :
    (sides_service packages.validate handler.sides).retrieve key created ≡ (created, ok url)
unfolding sides_service retrieve decode query_side layered proxy metrics_cache local_cache memory
    decode_cache_value encode_cache_value put_uint64 of_word64 uint64 to_word64 is_expired
retrieve_run = refl

redirect_run :
    (redirect handler.domain (sides_service packages.validate handler.sides) key created).1
    ≡ ok (redirected 302 url)
unfolding redirect after_retrieve sides_service retrieve decode query_side layered proxy
    metrics_cache local_cache memory decode_cache_value encode_cache_value put_uint64 of_word64
    uint64 to_word64 is_expired
redirect_run = refl

ends : (n : ℕ) (l : Bytes) (e : Option Instant) → view.Known created n l e → IsStorable e
ends n l e (r, number, long, expiry, listed) = elim listed [
  | inl same ↦ subst IsStorable (ap (λ x. x.expires_at) (sym same) ∙ expiry) tt
  | inr other ↦ absurd other
]

-- The requests before the redirect, and the world behind it.
abbrev service : Service World
service = sides_service packages.validate handler.sides

requests_run :
    (redirect handler.domain service key
      (after packages handler (creating url (pos 0) ∷ []) start)).1
    ≡ ok (redirected 302 url)
requests_run = ap (λ w. (redirect handler.domain service key w).1) after_run ∙ redirect_run

left : (service.retrieve key (after packages handler (creating url (pos 0) ∷ []) start)).0 ≡ created
left = ap (λ w. (service.retrieve key w).0) after_run ∙ ap (λ r. r.0) retrieve_run

new_handler-redirect_example :
    (status_found ≡ 302)
    × IsLink view packages.validate key url
        (view.time (after packages handler (creating url (pos 0) ∷ []) start))
        (service.retrieve key (after packages handler (creating url (pos 0) ∷ []) start)).0
new_handler-redirect_example =
    new_handler-redirect view packages packages-AreHonest config start handler
      (creating url (pos 0) ∷ []) key url 302 start handler_run start-IsCoherent
      (λ n l e known. ends n l e (subst (λ w. view.Known w n l e) left known)) requests_run
