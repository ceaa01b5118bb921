-- ===== src/Tests/Served.antt =====
-- A link that is created for a minute on the world in memory, followed after other requests, where the query
-- side has the redis cache.
use turl.Base.{
  ℕ, ◌≡◌, ◌⊎◌, inl, inr, refl, sym, ap, ◌∙◌, Bool, true, false, Bool-cases, Option, none, some,
  List, [], ◌∷◌, ◌==◌, ==_iff, arith,
}
use mathlib.Core.Path.{subst}
use turl.Base.Int.{pos, negsuc, ◌≤ℤ◌, to_word64, of_word64, ◌+ℤ◌, pos_part}
use turl.Action.{pure, attempt, continue}
use turl.Cache.{Redis, redis_cache, redis_get, redis_set, redis_reply, tenth}
use turl.Cache.Layers.{IsStore, redis-IsCache}
use turl.Cache.Contract.{quiet_refl}
use turl.Service.Safety.{IsHonest}
use turl.Expiry.Codec.{IsStorable}
use turl.Base58
use turl.Base58.{Bytes, encode, encode_loop, decode, decode_loop}
use turl.Errors.{
  Result, ok, err, panicked, cache_miss, record_not_found, is_cache_miss, is_redis_nil,
}
use turl.Expiry.{
  Instant, Duration, cache_ttl, encode_cache_value, put_uint64, uint64, decode_cache_value,
  is_expired, unix_nano,
}
use turl.Storage
use turl.Storage.{TinyUrl}
use turl.Service.Served.{IsServing}
use turl.Service.Reach.{Request, finding, reaping}
use turl.Service.{
  Parts, ModelUrl, create, retrieve, get_by_long, janitor_tick, remember, clock, expiry_of,
  after_insert, from_cache, after_get, after_decode, on_miss,
}
use turl.Handler.{Service, redirect}
use turl.Handler.Build.{
  sides_service, side_create, side_get_by_long, side_reap, serve_sides, serve_all_sides,
}
use turl.Handler.Served.{both_sides, later, IsUnique, Leads, create-redirect}
use turl.Tests.World.{
  World, Listed, parts, view, database, memory, memory-IsCache, honest, start, start-IsCoherent,
  first, alive, mem, not_found, missed, same_bytes,
}
use turl.Tests.Services.{url, key}

module _ {A : Type 0} where
  first-none : (p : A → Bool) (xs : List A) (x : A) → first p xs ≡ none → Listed x xs → p x ≡ false
  unfolding first
  first-none p [] x e h = absurd h
  first-none p (y ∷ ys) x e h = elim (Bool-cases (p y)) [
    | inl good ↦ absurd (let wrong : some y ≡ none = rw good at e in cc)
    | inr bad ↦
        let rest : first p ys ≡ none = rw bad at e in
        elim h [ inl same ↦ ap p same ∙ bad | inr listed ↦ first-none p ys x rest listed ]
  ]

removed :
    (dead : List ℕ) (r : TinyUrl) (n : ℕ) → r.short ≡ n → alive dead n r ≡ false → mem n dead ≡ true
unfolding alive
removed dead r n same h =
    let is : (r.short == n) ≡ true = (==_iff r.short n).1 same in
    elim (Bool-cases (mem n dead)) [
      | inl gone ↦ gone
      | inr there ↦ absurd (let wrong : true ≡ false = rw (is, there) at h in cc)
    ]

taken_or_gone :
    (n : ℕ) (l : Bytes) (e : Option Instant) (w : World)
    → view.Known w n l e
    → ((not_found (first (alive w.deleted n) w.links) ≡ err record_not_found)
        × (mem n w.deleted ≡ true))
      ⊎ ((r : TinyUrl) × (not_found (first (alive w.deleted n) w.links) ≡ ok r))
unfolding not_found
taken_or_gone n l e w (r, number, long, expiry, listed) =
    go (first (alive w.deleted n) w.links) refl
  where
    go :
        (o : Option TinyUrl)
        → first (alive w.deleted n) w.links ≡ o
        → ((not_found o ≡ err record_not_found) × (mem n w.deleted ≡ true))
          ⊎ ((x : TinyUrl) × (not_found o ≡ ok x))
    go none is = inl (refl, removed w.deleted r n number (first-none _ w.links r is listed))
    go (some x) is = inr (x, refl)

-- The redis cache, which panics for a lifetime below 10 ns.
abbrev redis : Redis World
redis = record {
  set_ex = memory.set;
  get = memory.get;
  del = memory.del;
  ping = pure tt;
  close = pure tt;
  int_n = λ n. pure 0;
}

redis-IsStore : IsStore view redis
redis-IsStore = record {
  set_ex = memory-IsCache.set;
  get = memory-IsCache.get;
  get_ok = memory-IsCache.get_ok;
  del = memory-IsCache.del;
  int_n = λ n w. quiet_refl view w;
}

abbrev query : Parts World
query = record parts { cache = redis_cache redis }

query-honest : IsHonest view query
query-honest = record {
  now = honest.now;
  now_time = honest.now_time;
  next = honest.next;
  inc_shorten_created = honest.inc_shorten_created;
  add_expired_reaped = honest.add_expired_reaped;
  db = honest.db;
  cache = redis-IsCache view redis redis-IsStore;
}

replied :
    (w : World) (o : Option (Bytes × Bytes))
    → ((v : Bytes) × ((continue (attempt (λ u. (u, missed o)) w) (redis_reply redis)).1 ≡ ok v))
      ⊎ ((x : turl.Errors.Error) × ((continue
              (attempt (λ u. (u, missed o)) w)
              (redis_reply redis)).1
            ≡ err x)
          × (is_cache_miss x ≡ true))
unfolding missed is_cache_miss redis_reply is_redis_nil
replied w none = inr (cache_miss, refl, refl)
replied w (some (k, v)) = inl (v, refl)

a_tenth : (t : Duration) → pos 10 ≤ℤ t → (tenth t == 0) ≡ false
unfolding tenth
a_tenth (pos n) enough = ground arith
a_tenth (negsuc n) enough = absurd (omega arith)

serving : IsServing view query
unfolding parts database memory redis_cache redis_get redis_set
serving = record {
  Gone = λ w n. mem n w.deleted ≡ true;
  row = taken_or_gone;
  get = λ k w. replied w (first (λ e. same_bytes e.0 k) w.cached);
  ttl = omega arith;
  set = λ k v t w enough h. let run : ok tt ≡ panicked = rw (a_tenth t enough) at h in absurd cc;
  now_time = λ w. omega arith;
}

abbrev no_test : Bytes → Result (Unit {0})
no_test long = ok tt

abbrev requests : List Request
requests = finding url ∷ reaping ∷ []

-- A minute, from the time of the world on.
abbrev minute : Duration
minute = pos 60000000000

abbrev end_of_link : Instant
end_of_link = pos 60000001000

abbrev made : ModelUrl
made = record {
  short_url = key;
  long_url = url;
  created_at = pos 0;
  deleted_at = none;
  expires_at = some end_of_link;
}

-- The link on the world: its row and its entry in the cache.
abbrev stored : World
stored = record {
  links =
      record {
        long_url = url;
        short = 656356768;
        expires_at = some end_of_link;
        created_at = pos 0;
        deleted_at = none;
      }
      ∷ [];
  deleted = [];
  cached = (key, encode_cache_value url (some end_of_link)) ∷ [];
  count = 656356769;
}

abbrev link_service : Service World
link_service =
    sides_service no_test (both_sides view no_test parts query honest query-honest serving)

created : link_service.create url minute start ≡ (stored, ok made)
unfolding sides_service side_create create remember clock expiry_of after_insert Storage.insert
    parts database memory encode encode_loop Base58.reverse Base58.chars cache_ttl ◌+ℤ◌
created = refl

after_requests :
    serve_all_sides no_test
      (both_sides view no_test parts query honest query-honest serving)
      requests
      stored
    ≡ stored
unfolding serve_all_sides serve_sides sides_service side_get_by_long side_reap get_by_long
    janitor_tick parts database Storage.delete_expired Storage.get_by_long_url
after_requests = refl

retrieve_run : retrieve query key stored ≡ (stored, ok url)
unfolding retrieve from_cache after_get after_decode clock on_miss parts memory first same_bytes
    missed decode decode_loop Base58.indices Base58.pow58 Base58.chars Base58.pow encode_cache_value
    put_uint64 decode_cache_value uint64 is_expired to_word64 of_word64 redis_cache redis_get
    redis_reply unix_nano
retrieve_run = refl

later_run :
    later view no_test parts query honest query-honest serving url minute requests start ≡ stored
later_run =
    ap
      (λ r.
        serve_all_sides no_test (both_sides view no_test parts query honest query-honest serving)
          requests r.0)
      created
    ∙ after_requests

one_link :
    (n : ℕ) (l : Bytes) (e : Option Instant)
    → view.Known stored n l e
    → (l ≡ url) × (e ≡ some end_of_link)
one_link n l e (r, number, long, expiry, listed) = elim listed [
  | inl same ↦ (sym long ∙ ap (λ x. x.long_url) same, sym expiry ∙ ap (λ x. x.expires_at) same)
  | inr other ↦ absurd other
]

stored-IsUnique : IsUnique view no_test parts query honest query-honest serving stored
stored-IsUnique n l l' e e' one other =
    let a = one_link n l e one in let b = one_link n l' e' other in (b.0 ∙ sym a.0, b.1 ∙ sym a.1)

abbrev end : World
end =
    (retrieve query key
      (later view no_test parts query honest query-honest serving url minute requests start)).0

end_run : end ≡ stored
end_run = ap (λ w. (retrieve query key w).0) later_run ∙ ap (λ r. r.0) retrieve_run

storable : IsStorable made.expires_at
storable = (
  (omega arith, omega arith),
  λ h. let none_left : 60000001000 ≡ 0 = ap pos_part h in absurd (omega arith),
)

create-redirect_example :
    Leads view no_test parts query honest query-honest serving key url
      (some end_of_link)
      end
      (redirect [] link_service key
        (later view no_test parts query honest query-honest serving url minute requests start)).1
create-redirect_example =
    create-redirect view no_test parts query honest query-honest serving [] url minute made requests
      start start-IsCoherent (ap (λ r. r.1) created) (omega arith) (omega arith) storable
      (subst (IsUnique view no_test parts query honest query-honest serving) (sym end_run)
        stored-IsUnique)
