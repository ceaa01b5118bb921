-- ===== src/Tests/Services.antt =====
-- The services on the world in memory: a link is created, and its short URL is followed.
use turl.Base.{ℕ, ◌≡◌, refl, ◌∙◌, Option, none, [], ◌∷◌, ap}
use turl.Base.Int.{pos, of_word64, to_word64}
use mathlib.Core.Path.{subst}
use turl.Base58
use turl.Base58.{Bytes, codes, encode, decode, encode_loop, decode_loop}
use turl.Errors.{ok}
use turl.Expiry.{Instant, encode_cache_value, put_uint64, uint64, decode_cache_value, is_expired}
use turl.Storage
use turl.Storage.{TinyUrl}
use turl.Service.{
  create, retrieve, remember, clock, expiry_of, after_insert, from_cache, after_get, after_decode,
  on_miss,
}
use turl.Service.Safety.{IsCoherent}
use turl.Service.Create.{create-safe, create-IsCoherent}
use turl.Service.Reach.{creating, serve, serve_all, served-safe}
use turl.Handler.{service, redirect, redirected, after_retrieve}
use turl.Handler.Redirect.{redirect-safe}
use turl.Tests.World.{
  World, parts, view, start, honest, start-IsCoherent, memory, database, first, same_bytes, missed,
}

abbrev pub url : Bytes
url = codes "http://a.b/c"

abbrev pub status_found : ℕ
status_found = 302

abbrev pub key : Bytes
key = codes "211111"

abbrev after_create : World
after_create = serve_all parts (creating url (pos 0) ∷ []) start

created_key : encode 656356768 ≡ key
unfolding encode encode_loop Base58.reverse Base58.chars
created_key = refl

abbrev pub row : TinyUrl
row = record {
  long_url = url;
  short = 656356768;
  expires_at = none;
  created_at = pos 0;
  deleted_at = none;
}

abbrev pub stored : World
stored = record {
  links = row ∷ [];
  deleted = [];
  cached = (key, encode_cache_value url none) ∷ [];
  count = 656356769;
}

pub create_run : create parts url (pos 0) start ≡ (
  stored,
  ok (record {
    short_url = key;
    long_url = url;
    created_at = pos 0;
    deleted_at = none;
    expires_at = none;
  }),
)
unfolding create remember clock expiry_of after_insert Storage.insert parts database memory encode
    encode_loop Base58.reverse Base58.chars
create_run = refl

serve_run : serve_all parts (creating url (pos 0) ∷ []) start ≡ stored
unfolding serve_all serve
serve_run = ap (λ r. r.0) create_run

redirect_run : redirect [] (service parts parts) key stored ≡ (stored, ok (redirected 302 url))
unfolding redirect after_retrieve service retrieve from_cache after_get after_decode clock on_miss
    parts memory first same_bytes missed decode decode_loop Base58.indices Base58.pow58 Base58.chars
    Base58.pow encode_cache_value put_uint64 decode_cache_value uint64 is_expired to_word64
    of_word64
redirect_run = refl

pub retrieve_run : retrieve parts key stored ≡ (stored, ok url)
unfolding retrieve from_cache after_get after_decode clock on_miss parts memory first same_bytes
    missed decode decode_loop Base58.indices Base58.pow58 Base58.chars Base58.pow encode_cache_value
    put_uint64 decode_cache_value uint64 is_expired to_word64 of_word64
retrieve_run = refl

stored-IsCoherent : IsCoherent view stored
stored-IsCoherent =
    subst (IsCoherent view) (ap (λ r. r.0) create_run)
      (create-IsCoherent view parts honest url (pos 0) start start-IsCoherent)

redirect-safe_example :
    (status_found ≡ 302)
    × (n : ℕ) × (e : Option Instant) × (decode key ≡ ok n)
    × view.Known (retrieve parts key (serve_all parts (creating url (pos 0) ∷ []) start)).0 n url e
redirect-safe_example =
    redirect-safe view parts honest [] (creating url (pos 0) ∷ []) key url 302 start
      start-IsCoherent
      (ap (λ w. (redirect [] (service parts parts) key w).1) serve_run ∙ ap (λ r. r.1) redirect_run)

served-safe_example :
    (n : ℕ) × (e : Option Instant) × (decode key ≡ ok n)
    × view.Known (retrieve parts key (serve_all parts (creating url (pos 0) ∷ []) start)).0 n url e
served-safe_example =
    served-safe view parts honest (creating url (pos 0) ∷ []) key url start start-IsCoherent
      (ap (λ w. (retrieve parts key w).1) serve_run ∙ ap (λ r. r.1) retrieve_run)

create-safe_example :
    (n : ℕ) × (key ≡ encode n)
    × (url ≡ url)
    × view.Known (create parts url (pos 0) start).0 n url none
create-safe_example =
    create-safe view parts honest url (pos 0)
      (record {
        short_url = key;
        long_url = url;
        created_at = pos 0;
        deleted_at = none;
        expires_at = none;
      })
      start start-IsCoherent (ap (λ r. r.1) create_run)
