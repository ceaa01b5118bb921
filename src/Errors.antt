-- ===== src/Errors.antt =====
-- The error values of the program and how a call ends. `fmt.Errorf("...: %w", err)` is `wrapped`,
-- and `errors.Is` looks through it.
use turl.Base.{ℕ, Bool, true, false, Option, none, some, String}

pub data Error : Type 0 where
  -- pkg/mapping: both wrap `ErrInvalidInput`
  base58_overflow invalid_character : Error
  -- gorm.ErrRecordNotFound, gorm.ErrDuplicatedKey
  record_not_found duplicated_key : Error
  -- cache.ErrCacheMiss, turl.ErrExpired, tddl.ErrStepTooSmall
  cache_miss expired step_too_small : Error
  -- redis.Nil, bigcache.ErrEntryNotFound
  redis_nil entry_not_found : Error
  -- cache: invalid capacity
  invalid_capacity : Error
  -- what the validator reports
  invalid_url : Error
  -- the error of a context that is done
  context_done : Error
  -- configs: the errors of Validate; pkg/log: unknown log format
  request_timeout_short invalid_output non_file_path invalid_format unknown_log_format : Error
  -- cli: a health check that is not answered with status 200
  unhealthy : ℕ → Error
  -- any other error of a driver or a backend
  backend : ℕ → Error
  wrapped : String → Error → Error

-- How a Go call ends: with a value, with an error, or by a panic.
pub data Result {ℓ} (A : Type ℓ) : Type ℓ where
  ok : A → Result A
  err : Error → Result A
  panicked : Result A

infixl 5 ◌>>=◌
abbrev pub ◌>>=◌ {ℓ κ} : {A : Type ℓ} {B : Type κ} → Result A → (A → Result B) → Result B
ok a >>= f = f a
err e >>= f = err e
panicked >>= f = panicked

infixl 5 ◌>>◌
abbrev pub ◌>>◌ {ℓ} : {B : Type ℓ} → Result (Unit {0}) → Result B → Result B
m >> k = m >>= λ _. k

-- A pointer that the code follows; following nil panics.
abbrev pub follow {ℓ} : {A : Type ℓ} → Option A → Result A
follow none = panicked
follow (some a) = ok a

-- errors.Is(err, mapping.ErrInvalidInput)
unfoldable pub is_invalid_input : Error → Bool
is_invalid_input base58_overflow = true
is_invalid_input invalid_character = true
is_invalid_input (wrapped s e) = is_invalid_input e
is_invalid_input _ = false

-- errors.Is(err, gorm.ErrRecordNotFound)
unfoldable pub is_record_not_found : Error → Bool
is_record_not_found record_not_found = true
is_record_not_found (wrapped s e) = is_record_not_found e
is_record_not_found _ = false

-- errors.Is(err, gorm.ErrDuplicatedKey)
unfoldable pub is_duplicated_key : Error → Bool
is_duplicated_key duplicated_key = true
is_duplicated_key (wrapped s e) = is_duplicated_key e
is_duplicated_key _ = false

-- errors.Is(err, cache.ErrCacheMiss)
unfoldable pub is_cache_miss : Error → Bool
is_cache_miss cache_miss = true
is_cache_miss (wrapped s e) = is_cache_miss e
is_cache_miss _ = false

-- errors.Is(err, turl.ErrExpired)
unfoldable pub is_expired_error : Error → Bool
is_expired_error expired = true
is_expired_error (wrapped s e) = is_expired_error e
is_expired_error _ = false

-- errors.Is(err, redis.Nil)
unfoldable pub is_redis_nil : Error → Bool
is_redis_nil redis_nil = true
is_redis_nil (wrapped s e) = is_redis_nil e
is_redis_nil _ = false

-- errors.Is(err, bigcache.ErrEntryNotFound)
unfoldable pub is_entry_not_found : Error → Bool
is_entry_not_found entry_not_found = true
is_entry_not_found (wrapped s e) = is_entry_not_found e
is_entry_not_found _ = false

-- errors.Is(err, context.DeadlineExceeded) || errors.Is(err, context.Canceled)
unfoldable pub is_context_done : Error → Bool
is_context_done context_done = true
is_context_done (wrapped s e) = is_context_done e
is_context_done _ = false
