-- ===== src/RateLimit/RedisToken.antt =====
-- `ItemRedisTokenRateLimiter` of pkg/workqueue/rate_limiters.go. The token script that redis runs, with
-- the clock that it is given, is a parameter, and so is the bucket that takes over when redis fails.
use turl.Base.{ℕ, zero, suc, String, Bool, true, false, if◌then◌else◌}
use turl.Base.Int.{pos}
use text.Mathlib.Text
use turl.Errors.{Result, ok, err, panicked, is_context_done, is_redis_nil}
use turl.Expiry.{Duration}
use turl.Action.{Action, continue}
use turl.RateLimit.MaxOf.{Bucket}

-- The goroutine of waitForRedis that holds the rescue lock: none, one that has just taken the lock,
-- one in the loop over the ticks, or one that is about to give the lock back.
pub data Waiter : Type 0 where
  idle locked pinging leaving : Waiter

-- `spawned` goroutines of waitForRedis have not tried the lock yet.
pub record RedisToken (B : Bucket) : Type 0 where
  pub rate : ℕ
  pub capacity : ℕ
  pub max_delay : Duration
  pub redis_alive : Bool
  pub spawned : ℕ
  pub waiter : Waiter
  pub rescue_limiter : B.State

module _ (B : Bucket) where
  -- NewItemRedisTokenRateLimiter
  unfoldable pub new_redis_token : ℕ → ℕ → Duration → B.State → RedisToken B
  new_redis_token rate capacity max_delay rescue = record {
    rate = rate;
    capacity = capacity;
    max_delay = max_delay;
    redis_alive = true;
    spawned = 0;
    waiter = idle;
    rescue_limiter = rescue;
  }

  -- r.rescueLimiter.Take
  unfoldable pub rescue : RedisToken B → RedisToken B × Bool
  rescue r =
      let (s, allowed) = B.allow r.rescue_limiter in (record r { rescue_limiter = s }, allowed)

  -- go r.waitForRedis()
  unfoldable pub spawn : RedisToken B → RedisToken B
  spawn r = record r { spawned = suc r.spawned }

  -- What reserveN does with the reply of the script; the value that comes with an error is false.
  unfoldable pub after_script :
      {W : Type 0} → RedisToken B → Result Bool → Action W (RedisToken B × Bool)
  unfolding rescue spawn
  after_script r (ok allowed) w = (w, ok (r, allowed))
  after_script r (err e) w =
      if is_context_done e
      then (w, ok (r, false))
      else if is_redis_nil e
      then (w, ok (r, false))
      else (w, ok (rescue (spawn r)))
  after_script r panicked w = (w, panicked)

  module _ {W : Type 0} (allow_n : ℕ → ℕ → Action W Bool) (del : Action W (Unit {0})) where
    unfoldable pub reserve_n : RedisToken B → Action W (RedisToken B × Bool)
    unfolding after_script
    reserve_n r w =
        let (w', reply) = allow_n r.rate r.capacity w in
        if r.redis_alive then after_script r reply w' else (w, ok (rescue r))

    -- Take
    unfoldable pub take : RedisToken B → Action W (RedisToken B × Bool)
    unfolding reserve_n
    take r = reserve_n r

    -- When
    unfoldable pub when : RedisToken B → Action W (RedisToken B × Duration)
    unfolding reserve_n
    when r w =
        continue (reserve_n r w)
          (λ reply v. (v, ok (reply.0, if reply.1 then pos 0 else r.max_delay)))

    -- Forget, whose error is dropped; the limiter itself is as before.
    unfoldable pub forget : RedisToken B → W → W
    forget r w = (del w).0

  -- One goroutine of waitForRedis tries the lock.
  unfoldable pub try_lock : RedisToken B → ℕ → Waiter → RedisToken B
  try_lock r zero waiter = r
  try_lock r (suc n) idle = record r { spawned = n; waiter = locked }
  try_lock r (suc n) _ = record r { spawned = n }

  -- The next step of the goroutine that holds the lock, at a tick with the text of the reply to Ping.
  unfoldable pub wait_step : String → RedisToken B → Waiter → RedisToken B
  wait_step reply r idle = r
  wait_step reply r locked = record r { redis_alive = false; waiter = pinging }
  wait_step reply r pinging =
      if Text.◌==◌ reply "pong" then record r { redis_alive = true; waiter = leaving } else r
  wait_step reply r leaving = record r { waiter = idle }
