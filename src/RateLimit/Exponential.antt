-- ===== src/RateLimit/Exponential.antt =====
-- `ItemExponentialFailureRateLimiter` of pkg/workqueue/rate_limiters.go.
use turl.Base.{ℕ, ◌^◌, Bool, none, ltb, if◌then◌else◌}
use turl.Base.Int.{pos, ltb_ℤ}
use turl.Expiry.{Duration}
use turl.RateLimit.{
  Comparable, Failures, count, is_none, record_failure, delete, Float, finite, infinite, nan,
  backoff_of,
}

pub record Exponential (T : Type 0) : Type 0 where
  pub failures : Failures T
  pub base_delay : ℕ
  pub max_delay : ℕ

-- NewItemExponentialFailureRateLimiter
unfoldable pub new_exponential : {T : Type 0} → ℕ → ℕ → Exponential T
new_exponential base max = record { failures = λ item. none; base_delay = base; max_delay = max }

-- What the conversion of a float64 gives when no int64 holds it; the language leaves it open.
abbrev pub Conversion : Type 0
Conversion = Float → Duration

-- The delay of a backoff: the cap, or the converted product. `math.MaxInt64` is 2 ^ 63 as a float64.
unfoldable pub delay_of : Conversion → Float → ℕ → Duration
delay_of convert infinite max = pos max
delay_of convert nan max = if ltb_ℤ (pos max) (convert nan) then pos max else convert nan
delay_of convert (finite x) max =
    let calculated = if ltb x (2 ^ 63) then pos x else convert (finite x) in
    if ltb (2 ^ 63) x then pos max else if ltb_ℤ (pos max) calculated then pos max else calculated

module _ {T : Type 0} ⦃c : Comparable T⦄ where
  -- Take
  unfoldable pub take : Exponential T → T → Bool
  take r item = is_none (r.failures item)

  -- When
  unfoldable pub when : Conversion → Exponential T → T → Exponential T × Duration
  when convert r item =
      let exp = count (r.failures item) in
      (
        record r { failures = record_failure r.failures item },
        delay_of convert (backoff_of r.base_delay exp) r.max_delay,
      )

  -- Retries
  unfoldable pub retries : Exponential T → T → ℕ
  retries r item = count (r.failures item)

  -- Forget
  unfoldable pub forget : Exponential T → T → Exponential T
  forget r item = record r { failures = delete r.failures item }
