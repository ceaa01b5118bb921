-- ===== src/Handler.antt =====
-- app/turl/handler.go: the HTTP handlers over a service. What gin binds to a request is a parameter: the
-- request with the error of ShouldBind, if there is one.
pub mod Build
pub mod Built
pub mod Served
pub mod Redirect
pub mod Lifetime
use turl.Base.{
  ℕ, ◌+◌, ◌*◌, Bool, true, false, ltb, Option, none, some, [], ◌∷◌, ◌++◌, if◌then◌else◌, length,
}
use turl.Base.Int.{ℤ, pos, negsuc, to_word64, of_word64}
use turl.Base58.{Bytes}
use turl.Errors.{
  Error, Result, ok, err, panicked, is_invalid_input, is_record_not_found, is_expired_error,
}
use turl.Expiry.{Duration}
use turl.Action.{Action, pure, panic, attempt, ◌>>=◌}
use turl.Service.{Parts, ModelUrl, create, delete, retrieve, get_by_long}

-- Service of app/turl/service.go
pub record Service (W : Type 0) : Type 0 where
  pub create : Bytes → Duration → Action W ModelUrl
  pub retrieve : Bytes → Action W Bytes
  pub get_by_long : Bytes → Action W ModelUrl
  pub delete : Bytes → Action W (Unit {0})

-- tinyURLService, whose command side and query side are built from their own parts
unfoldable pub service : {W : Type 0} → Parts W → Parts W → Service W
service command query = record {
  create = create command;
  retrieve = retrieve query;
  get_by_long = get_by_long query;
  delete = delete command;
}

-- model.CreateRequest; TTLSeconds is an int of 64 bits.
pub record CreateRequest : Type 0 where
  pub long_url : Bytes
  pub ttl_seconds : ℤ

-- model.ShortenRequest
pub record ShortenRequest : Type 0 where
  pub short_url : Bytes

-- The Error field of a response: empty, a constant text, or the text of an error.
pub data Message : Type 0 where
  no_message invalid_short_url short_url_expired short_url_not_found : Message
  of_error : Error → Message

-- c.JSON with a model.ShortenResponse, or c.Redirect.
pub data Response : Type 0 where
  json : ℕ → ModelUrl → Message → Response
  redirected : ℕ → Bytes → Response

-- The zero time.Time, the start of the year 1.
abbrev pub zero_time : ℤ
zero_time = negsuc 62135596799999999999

-- model.TinyURL{ShortURL: short, LongURL: long}
abbrev pub tiny_url : Bytes → Bytes → ModelUrl
tiny_url short long = record {
  short_url = short;
  long_url = long;
  created_at = zero_time;
  deleted_at = none;
  expires_at = none;
}

-- time.Duration(seconds) * time.Second, in an int64
unfoldable pub seconds_ttl : ℤ → Duration
seconds_ttl (pos n) = of_word64 (to_word64 (pos (n * 1000000000)))
seconds_ttl (negsuc n) = of_word64 (to_word64 (negsuc (n * 1000000000 + 999999999)))

-- fmt.Sprintf("%s/%s", h.domain, record.ShortURL)
abbrev pub with_domain : Bytes → ModelUrl → ModelUrl
with_domain domain m = record m { short_url = domain ++ b'/' ∷ m.short_url }

module _ {W : Type 0} (domain : Bytes) (s : Service W) where
  -- What the handlers answer once the service has.
  unfoldable pub after_record : (Error → Response) → Result ModelUrl → Action W Response
  after_record on_error (ok m) = pure (json 200 (with_domain domain m) no_message)
  after_record on_error (err e) = pure (on_error e)
  after_record on_error panicked = panic

  unfoldable pub create_handler : CreateRequest → Option Error → Action W Response
  unfolding after_record seconds_ttl
  create_handler req (some e) = pure (json 400 (tiny_url [] req.long_url) (of_error e))
  create_handler req none = do
    reply ← attempt (s.create req.long_url (seconds_ttl req.ttl_seconds))
    after_record (λ e. json 500 (tiny_url [] req.long_url) (of_error e)) reply

  unfoldable pub after_retrieve : Bytes → Result Bytes → Action W Response
  after_retrieve short (ok long) = pure (redirected 302 long)
  after_retrieve short (err e) = pure (
      if is_invalid_input e
      then json 400 (tiny_url short []) invalid_short_url
      else if is_expired_error e
      then json 410 (tiny_url short []) short_url_expired
      else if is_record_not_found e
      then json 404 (tiny_url short []) short_url_not_found
      else json 500 (tiny_url short []) (of_error e))
  after_retrieve short panicked = panic

  -- Redirect, whose `short` is a part of the path.
  unfoldable pub redirect : Bytes → Action W Response
  unfolding after_retrieve
  redirect short =
      let refused : Action W Response = pure (json 400 (tiny_url short []) invalid_short_url) in
      let served : Action W Response = do
        reply ← attempt (s.retrieve short)
        after_retrieve short reply
      in if ltb 8 (length short) then refused else if ltb (length short) 6 then refused else served

  unfoldable pub get_shorten_info : CreateRequest → Option Error → Action W Response
  unfolding after_record
  get_shorten_info req (some e) = pure (json 400 (tiny_url [] req.long_url) (of_error e))
  get_shorten_info req none = do
    reply ← attempt (s.get_by_long req.long_url)
    after_record (λ e. json 500 (tiny_url [] []) (of_error e)) reply

  unfoldable pub after_delete : Bytes → Result (Unit {0}) → Action W Response
  after_delete short (ok u) = pure (json 200 (tiny_url short []) no_message)
  after_delete short (err e) = pure (
      if is_invalid_input e
      then json 400 (tiny_url short []) invalid_short_url
      else if is_record_not_found e
      then json 404 (tiny_url short []) short_url_not_found
      else json 500 (tiny_url short []) (of_error e))
  after_delete short panicked = panic

  unfoldable pub delete_handler : ShortenRequest → Option Error → Action W Response
  unfolding after_delete
  delete_handler req (some e) = pure (json 400 (tiny_url req.short_url []) (of_error e))
  delete_handler req none = do
    reply ← attempt (s.delete req.short_url)
    after_delete req.short_url reply
