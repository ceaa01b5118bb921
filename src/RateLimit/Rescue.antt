-- ===== src/RateLimit/Rescue.antt =====
-- `ItemRedisTokenRateLimiter` while redis is away: who watches for its return.
use turl.Base.{
  ◌⊎◌, ℕ, zero, suc, String, Bool, true, false, ◌≡◌, ◌≢◌, refl, List, [], ◌∷◌, All, if◌then◌else◌,
  Bool-cases, inl, inr,
}
use text.Mathlib.Text
use text.Mathlib.TextEquality.{eq_iff}
use turl.Errors.{Result, ok, err, panicked, is_context_done, is_redis_nil}
use turl.Action.{Action}
use turl.RateLimit.MaxOf.{Bucket}
use turl.RateLimit.RedisToken.{
  RedisToken, Waiter, idle, locked, pinging, leaving, rescue, spawn, after_script, reserve_n,
  try_lock, wait_step,
}

-- A call of Take or When, a goroutine that tries the lock, or a step of the one that holds it.
pub data Event : Type 0 where
  reserving locking : Event
  waiting : String → Event

module _ (B : Bucket) {W : Type 0} (allow_n : ℕ → ℕ → Action W Bool)
    (del : Action W (Unit {0})) where
  -- The limiter behind a call; a panic of the client leaves it as it was.
  unfoldable pub left_by : RedisToken B → W × Result (RedisToken B × Bool) → RedisToken B × W
  left_by r (w, ok (r', allowed)) = (r', w)
  left_by r (w, err e) = (r, w)
  left_by r (w, panicked) = (r, w)

  unfoldable pub happen : Event → RedisToken B × W → RedisToken B × W
  unfolding left_by reserve_n try_lock wait_step
  happen reserving (r, w) = left_by r (reserve_n B allow_n del r w)
  happen locking (r, w) = (try_lock B r r.spawned r.waiter, w)
  happen (waiting reply) (r, w) = (wait_step B reply r r.waiter, w)

  unfoldable pub happen_all : List Event → RedisToken B × W → RedisToken B × W
  unfolding happen
  happen_all [] s = s
  happen_all (e ∷ es) s = happen_all es (happen e s)

  -- Redis is held for alive, or a goroutine is in the loop that pings it.
  abbrev pub IsWatched : RedisToken B → Type 0
  IsWatched r = (r.redis_alive ≡ true) ⊎ (r.waiter ≡ pinging)

  after_script-IsWatched :
      (r : RedisToken B) (reply : Result Bool) (w : W)
      → IsWatched r
      → IsWatched (left_by r (after_script B r reply w)).0
  unfolding after_script left_by rescue spawn
  after_script-IsWatched r (ok b) w h = h
  after_script-IsWatched r (err e) w h = elim (Bool-cases (is_context_done e)) [
    | inl done ↦ rw done h
    | inr other ↦ elim (Bool-cases (is_redis_nil e)) [
      | inl missing ↦ rw (other, missing) h
      | inr failed ↦ rw (other, failed) h
    ]
  ]
  after_script-IsWatched r panicked w h = h

  left-IsWatched :
      (r : RedisToken B) (b : Bool) (m n : W × Result (RedisToken B × Bool))
      → IsWatched (left_by r m).0
      → IsWatched (left_by r n).0
      → IsWatched (left_by r (if b then m else n)).0
  left-IsWatched r true m n hm hn = hm
  left-IsWatched r false m n hm hn = hn

  reserve_n-IsWatched :
      (r : RedisToken B) (w : W)
      → IsWatched r
      → IsWatched (left_by r (reserve_n B allow_n del r w)).0
  unfolding reserve_n
  reserve_n-IsWatched r w h =
      left-IsWatched r r.redis_alive
        (after_script B r (allow_n r.rate r.capacity w).1 (allow_n r.rate r.capacity w).0)
        (w, ok (rescue B r))
        (after_script-IsWatched r (allow_n r.rate r.capacity w).1 (allow_n r.rate r.capacity w).0 h)
        (unfold left_by rescue in h)

  try_lock-IsWatched :
      (r : RedisToken B) (n : ℕ) (k : Waiter)
      → r.waiter ≡ k
      → IsWatched r
      → IsWatched (try_lock B r n k)
  unfolding try_lock
  try_lock-IsWatched r zero k e h = h
  try_lock-IsWatched r (suc n) idle e h = elim h [ inl alive ↦ inl alive | inr p ↦ absurd cc ]
  try_lock-IsWatched r (suc n) locked e h = h
  try_lock-IsWatched r (suc n) pinging e h = h
  try_lock-IsWatched r (suc n) leaving e h = h

  wait_step-IsWatched :
      (reply : String) (r : RedisToken B) (k : Waiter)
      → r.waiter ≡ k
      → IsWatched r
      → IsWatched (wait_step B reply r k)
  unfolding wait_step
  wait_step-IsWatched reply r idle e h = h
  wait_step-IsWatched reply r locked e h = inr refl
  wait_step-IsWatched reply r pinging e h = elim (Bool-cases (Text.◌==◌ reply "pong")) [
    | inl pong ↦ rw pong (inl refl)
    | inr other ↦ rw other h
  ]
  wait_step-IsWatched reply r leaving e h = elim h [ inl alive ↦ inl alive | inr p ↦ absurd cc ]

  -- If the limiter holds redis for alive or a goroutine is in the loop that pings redis, this is so
  -- after any calls, whatever the script replies, and any steps of the goroutines of waitForRedis.
  pub happen_all-IsWatched :
      (es : List Event) (r : RedisToken B) (w : W)
      → IsWatched r
      → IsWatched (happen_all es (r, w)).0
  unfolding happen_all happen
  happen_all-IsWatched [] r w h = h
  happen_all-IsWatched (reserving ∷ es) r w h =
      let next = left_by r (reserve_n B allow_n del r w) in
      happen_all-IsWatched es next.0 next.1 (reserve_n-IsWatched r w h)
  happen_all-IsWatched (locking ∷ es) r w h =
      happen_all-IsWatched es (try_lock B r r.spawned r.waiter) w
        (try_lock-IsWatched r r.spawned r.waiter refl h)
  happen_all-IsWatched (waiting reply ∷ es) r w h =
      happen_all-IsWatched es (wait_step B reply r r.waiter) w
        (wait_step-IsWatched reply r r.waiter refl h)

  -- The limiter holds redis for dead, and a goroutine pings redis.
  abbrev pub IsAway : RedisToken B → Type 0
  IsAway r = (r.redis_alive ≡ false) × (r.waiter ≡ pinging)

  -- No reply to a Ping reads exactly "pong".
  abbrev pub IsOther : Event → Type 0
  IsOther (waiting reply) = reply ≢ "pong"
  IsOther _ = Unit

  reserve_n-IsAway :
      (r : RedisToken B) (w : W) → IsAway r → IsAway (left_by r (reserve_n B allow_n del r w)).0
  unfolding reserve_n left_by rescue
  reserve_n-IsAway r w h = rw h.0 (refl, h.1)

  try_lock-IsAway :
      (r : RedisToken B) (n : ℕ) (k : Waiter) → k ≡ pinging → IsAway r → IsAway (try_lock B r n k)
  unfolding try_lock
  try_lock-IsAway r zero k e h = h
  try_lock-IsAway r (suc n) idle e h = absurd cc
  try_lock-IsAway r (suc n) locked e h = h
  try_lock-IsAway r (suc n) pinging e h = h
  try_lock-IsAway r (suc n) leaving e h = h

  wait_step-IsAway :
      (reply : String) (r : RedisToken B) (k : Waiter)
      → reply ≢ "pong"
      → k ≡ pinging
      → IsAway r
      → IsAway (wait_step B reply r k)
  unfolding wait_step
  wait_step-IsAway reply r idle other e h = h
  wait_step-IsAway reply r locked other e h = absurd cc
  wait_step-IsAway reply r leaving other e h = absurd cc
  wait_step-IsAway reply r pinging other e h = elim (Bool-cases (Text.◌==◌ reply "pong")) [
    | inl pong ↦ absurd (other ((eq_iff reply "pong").0 pong))
    | inr differs ↦ rw differs h
  ]

  -- Once the limiter holds redis for dead and a goroutine pings redis, it holds redis for dead after
  -- any calls and steps in which no reply to a Ping reads exactly "pong".
  pub happen_all-IsAway :
      (es : List Event) (r : RedisToken B) (w : W)
      → All IsOther es
      → IsAway r
      → IsAway (happen_all es (r, w)).0
  unfolding happen_all happen
  happen_all-IsAway [] r w all h = h
  happen_all-IsAway (reserving ∷ es) r w all h =
      let next = left_by r (reserve_n B allow_n del r w) in
      happen_all-IsAway es next.0 next.1 all.1 (reserve_n-IsAway r w h)
  happen_all-IsAway (locking ∷ es) r w all h =
      happen_all-IsAway es (try_lock B r r.spawned r.waiter) w all.1
        (try_lock-IsAway r r.spawned r.waiter h.1 h)
  happen_all-IsAway (waiting reply ∷ es) r w all h =
      happen_all-IsAway es (wait_step B reply r r.waiter) w all.1
        (wait_step-IsAway reply r r.waiter all.0 h.1 h)
