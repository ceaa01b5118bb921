-- ===== src/RateLimit/MaxOf.antt =====
-- The limiters behind the interface `RateLimiter` of pkg/workqueue/rate_limiters.go, and
-- `MaxOfRateLimiter`, which asks several. The token bucket of golang.org/x/time/rate is a parameter.
use turl.Base.{ℕ, Bool, true, false, ltb, if◌then◌else◌}
use turl.Base.Int.{pos, ltb_ℤ}
use turl.Expiry.{Duration}
use turl.RateLimit.{Comparable}
use turl.RateLimit.Exponential
use turl.RateLimit.Exponential.{Exponential, Conversion}
use turl.RateLimit.FastSlow
use turl.RateLimit.FastSlow.{FastSlow}

-- A `*rate.Limiter`: its state, `Allow` and `Reserve().Delay()`.
pub record Bucket : Type 1 where
  pub State : Type 0
  pub allow : State → State × Bool
  pub reserve : State → State × Duration

mutual
  pub data Limiter (B : Bucket) (T : Type 0) : Type 0 where
    bucket : B.State → Limiter B T
    exponential : Exponential T → Limiter B T
    fast_slow : FastSlow T → Limiter B T
    max_of : Limiters B T → Limiter B T

  pub data Limiters (B : Bucket) (T : Type 0) : Type 0 where
    nil : Limiters B T
    cons : Limiter B T → Limiters B T → Limiters B T

abbrev pub longer : Duration → Duration → Duration
longer curr ret = if ltb_ℤ ret curr then curr else ret

abbrev pub larger : ℕ → ℕ → ℕ
larger curr ret = if ltb ret curr then curr else ret

module _ (B : Bucket) {T : Type 0} ⦃c : Comparable T⦄ where
  unfoldable mutual
    -- Take; a limiter that refuses ends the loop, and the later ones are not asked.
    pub take : Limiter B T → T → Limiter B T × Bool
    take (bucket s) item = let (s', allowed) = B.allow s in (bucket s', allowed)
    take (exponential r) item = (exponential r, Exponential.take r item)
    take (fast_slow r) item = (fast_slow r, FastSlow.take r item)
    take (max_of ls) item = let (ls', allowed) = take_all ls item in (max_of ls', allowed)

    pub take_all : Limiters B T → T → Limiters B T × Bool
    take_all nil item = (nil, true)
    take_all (cons l ls) item =
        let (l', allowed) = take l item in
        let (ls', rest) = take_all ls item in
        if allowed then (cons l' ls', rest) else (cons l' ls, false)

  unfoldable mutual
    -- When; `convert` is the conversion that the exponential limiters make.
    pub when : Conversion → Limiter B T → T → Limiter B T × Duration
    when convert (bucket s) item = let (s', delay) = B.reserve s in (bucket s', delay)
    when convert (exponential r) item =
        let (r', delay) = Exponential.when convert r item in (exponential r', delay)
    when convert (fast_slow r) item =
        let (r', delay) = FastSlow.when r item in (fast_slow r', delay)
    when convert (max_of ls) item =
        let (ls', delay) = when_all convert ls item (pos 0) in (max_of ls', delay)

    -- The loop over the limiters, with the longest delay so far.
    pub when_all : Conversion → Limiters B T → T → Duration → Limiters B T × Duration
    when_all convert nil item ret = (nil, ret)
    when_all convert (cons l ls) item ret =
        let (l', curr) = when convert l item in
        let (ls', longest) = when_all convert ls item (longer curr ret) in (cons l' ls', longest)

  unfoldable mutual
    -- Retries
    pub retries : Limiter B T → T → ℕ
    retries (bucket s) item = 0
    retries (exponential r) item = Exponential.retries r item
    retries (fast_slow r) item = FastSlow.retries r item
    retries (max_of ls) item = retries_all ls item 0

    pub retries_all : Limiters B T → T → ℕ → ℕ
    retries_all nil item ret = ret
    retries_all (cons l ls) item ret = retries_all ls item (larger (retries l item) ret)

  unfoldable mutual
    -- Forget
    pub forget : Limiter B T → T → Limiter B T
    forget (bucket s) item = bucket s
    forget (exponential r) item = exponential (Exponential.forget r item)
    forget (fast_slow r) item = fast_slow (FastSlow.forget r item)
    forget (max_of ls) item = max_of (forget_all ls item)

    pub forget_all : Limiters B T → T → Limiters B T
    forget_all nil item = nil
    forget_all (cons l ls) item = cons (forget l item) (forget_all ls item)
