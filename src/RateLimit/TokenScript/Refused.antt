-- ===== src/RateLimit/TokenScript/Refused.antt =====
-- ItemRedisTokenRateLimiter of pkg/workqueue/rate_limiters.go over a script whose keys get no lifetime.
use turl.Base.{ℕ, ◌*◌, ◌^◌, ◌<◌, ◌≡◌, refl, ap, ◌∙◌, true, none, arith}
use turl.Errors.{ok, is_context_done, is_redis_nil}
use turl.Action.{Action}
use turl.RateLimit.MaxOf.{Bucket}
use turl.RateLimit.RedisToken.{RedisToken, reserve_n, after_script, rescue, spawn}
use turl.RateLimit.TokenScript.{
  Lua, ScriptKeys, fill_time, ttl_of, allow_script, run_script, reply_of, after_tokens,
}

-- The numbers of Lua are doubles: a product of whole numbers below 2 ^ 53 is exact, and the quotient of
-- two of them that is below a half stays below a half when it is rounded.
pub record AreDoubles (L : Lua) : Type 0 where
  pub times_exact :
      (a b : ℕ) → a * b < 2 ^ 53 → L.times (L.tonumber a) (L.tonumber b) ≡ L.tonumber (a * b)
  pub below_half :
      (a b : ℕ)
      → 2 * a < b
      → b < 2 ^ 53
      → L.floor (L.times (L.over (L.tonumber a) (L.tonumber b)) (L.tonumber 2)) ≡ L.tonumber 0

-- PSETEX takes no lifetime of 0.
pub record RefusesZero {L : Lua} (K : ScriptKeys L) : Type 0 where
  pub set_tokens : (v : L.Number) (s : K.State) → K.set_tokens (L.tonumber 0) v s ≡ none

module _ (B : Bucket) {L : Lua} (doubles : AreDoubles L) {K : ScriptKeys L} (law : RefusesZero K)
    (del : Action K.State (Unit {0})) where
  no_lifetime :
      (rate capacity : ℕ)
      → 2000 * capacity < rate
      → rate < 2 ^ 53
      → ttl_of L (L.tonumber rate) (L.tonumber capacity) ≡ L.tonumber 0
  unfolding ttl_of fill_time
  no_lifetime rate capacity fast small =
      ap (λ x. L.floor (L.times (L.over x (L.tonumber rate)) (L.tonumber 2)))
        (doubles.times_exact 1000 capacity (omega arith))
      ∙ doubles.below_half (1000 * capacity) rate (omega arith) small

  -- A rate above 2000 capacities in a second, and below 2 ^ 53, gives the keys a lifetime of 0, which
  -- redis refuses. While redis is held for alive, a call then changes nothing in redis, is answered by
  -- the bucket of this process, and starts a goroutine that waits for redis.
  pub reserve_n_refused :
      (now : K.State → ℕ) (r : RedisToken B) (s : K.State)
      → r.redis_alive ≡ true
      → 2000 * r.capacity < r.rate
      → r.rate < 2 ^ 53
      → reserve_n B (run_script L K now) del r s ≡ (s, ok (rescue B (spawn B r)))
  unfolding reserve_n run_script allow_script after_tokens reply_of after_script is_context_done
      is_redis_nil
  reserve_n_refused now r s alive fast small =
      rw (alive, no_lifetime r.rate r.capacity fast small, law.set_tokens) refl
