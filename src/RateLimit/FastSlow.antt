-- ===== src/RateLimit/FastSlow.antt =====
-- `ItemFastSlowRateLimiter` of pkg/workqueue/rate_limiters.go.
use turl.Base.{ℕ, Bool, none, leb, if◌then◌else◌}
use turl.Expiry.{Duration}
use turl.RateLimit.{Comparable, Failures, count, is_none, record_failure, delete}

pub record FastSlow (T : Type 0) : Type 0 where
  pub failures : Failures T
  pub max_fast_attempts : ℕ
  pub fast_delay : Duration
  pub slow_delay : Duration

-- NewItemFastSlowRateLimiter
unfoldable pub new_fast_slow : {T : Type 0} → Duration → Duration → ℕ → FastSlow T
new_fast_slow fast slow attempts = record {
  failures = λ item. none;
  max_fast_attempts = attempts;
  fast_delay = fast;
  slow_delay = slow;
}

module _ {T : Type 0} ⦃c : Comparable T⦄ where
  -- Take
  unfoldable pub take : FastSlow T → T → Bool
  take r item = is_none (r.failures item)

  -- When
  unfoldable pub when : FastSlow T → T → FastSlow T × Duration
  when r item =
      let counted = record_failure r.failures item in
      (
        record r { failures = counted },
        if leb (count (counted item)) r.max_fast_attempts then r.fast_delay else r.slow_delay,
      )

  -- Retries
  unfoldable pub retries : FastSlow T → T → ℕ
  retries r item = count (r.failures item)

  -- Forget
  unfoldable pub forget : FastSlow T → T → FastSlow T
  forget r item = record r { failures = delete r.failures item }
