-- ===== src/Tests/Distant.antt =====
-- A link that expires in the year 2262, in the cache of the world in memory.
use turl.Base.{ℕ, ◌≡◌, refl, false, some, [], ◌∷◌, arith, ◌^◌}
use turl.Base.Int.{pos, to_word64}
use turl.Base58
use turl.Base58.{Bytes, codes, decode, decode_loop}
use turl.Errors.{ok, err, expired}
use turl.Expiry.{encode_cache_value, is_expired}
use turl.Service.{retrieve}
use turl.Service.Distant.{retrieve_distant}
use turl.Tests.World.{World, parts, memory, missed, first, same_bytes}

abbrev key : Bytes
key = codes "211111"

abbrev url : Bytes
url = codes "http://a.b/c"

abbrev year_2262 : ℕ
year_2262 = 2 ^ 63

abbrev world : World
world = record {
  links = [];
  deleted = [];
  cached = (key, encode_cache_value url (some (pos year_2262))) ∷ [];
  count = 656356769;
}

decoded : decode key ≡ ok 656356768
unfolding decode decode_loop Base58.reverse Base58.indices Base58.pow58 to_word64
decoded = refl

hit : (parts.cache.get key world).1 ≡ ok (encode_cache_value url (some (pos year_2262)))
unfolding parts memory missed first same_bytes
hit = refl

time : (parts.now (parts.cache.get key world).0).1 ≡ pos 1000
unfolding parts
time = refl

retrieve_distant_example :
    (is_expired (pos 1000) (some (pos year_2262)) ≡ false)
    × ((retrieve parts key world).1 ≡ err expired)
retrieve_distant_example =
    retrieve_distant parts key 656356768 year_2262 1000 url world decoded (omega arith)
      (omega arith) (omega arith) hit time
