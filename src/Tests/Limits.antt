-- ===== src/Tests/Limits.antt =====
-- The limiters on concrete inputs: items are numbers, and a bucket never refuses.
use turl.Base.{
  inl, refl, Bool, false, ◌≢◌, List, [], ◌∷◌, String, ℕ, ◌≡◌, true, ◌==◌, ==_iff, arith,
}
use turl.Base.Int.{pos}
use text.Mathlib.Text
use text.Mathlib.TextEquality.{eq_iff}
use turl.Errors.{ok, err, backend}
use turl.Action.{Action}
use turl.RateLimit.{Comparable}
use turl.RateLimit.RedisToken.{RedisToken, idle, pinging}
use turl.RateLimit.Rescue.{
  Event, reserving, locking, waiting, happen_all, IsWatched, IsAway, happen_all-IsWatched,
  happen_all-IsAway,
}
use turl.RateLimit.Exponential
use turl.RateLimit.Exponential.{Exponential, new_exponential, Conversion}
use turl.RateLimit.MaxOf.{Bucket}
use turl.RateLimit.Backoff.{when-forget, fail_times, capped_backoff}

instance number : Comparable ℕ
number = record { same = λ a b. a == b; same_iff = λ a b. ==_iff a b }

abbrev quick : Exponential ℕ
quick = new_exponential 10000000 60000000000

abbrev to_zero : Conversion
to_zero x = pos 0

abbrev free : Bucket
free = record { State = ℕ; allow = λ s. (s, true); reserve = λ s. (s, pos 0) }

when-forget_example :
    (Exponential.when to_zero (fail_times to_zero 3 (Exponential.forget quick 7) 7) 7).1
    ≡ pos (capped_backoff 10000000 60000000000 3)
unfolding new_exponential
when-forget_example =
    when-forget to_zero quick 7 3 (omega arith) (omega arith) (omega arith) (λ e. omega (arith, e))

-- Redis, which fails at every call.
abbrev failing : ℕ → ℕ → Action ℕ Bool
failing rate capacity w = (w, err (backend 1))

abbrev dropped : Action ℕ (Unit {0})
dropped w = (w, ok tt)

abbrev outage : List Event
outage = reserving ∷ locking ∷ waiting "ping: PONG" ∷ waiting "ping: PONG" ∷ []

abbrev limited : RedisToken free
limited = record {
  rate = 10;
  capacity = 20;
  max_delay = pos 1000000000;
  redis_alive = true;
  spawned = 0;
  waiter = idle;
  rescue_limiter = 0;
}

abbrev away : RedisToken free
away = record limited { redis_alive = false; waiter = pinging }

happen_all-IsWatched_example :
    IsWatched free failing dropped (happen_all free failing dropped outage (limited, 0)).0
happen_all-IsWatched_example = happen_all-IsWatched free failing dropped outage limited 0 (inl refl)

other_text : ◌≢◌ {A = String} "ping: PONG" "pong"
other_text e =
    let same : Text.◌==◌ "ping: PONG" "pong" ≡ true = (eq_iff "ping: PONG" "pong").1 e in cc

happen_all-IsAway_example :
    IsAway free failing dropped (happen_all free failing dropped outage (away, 0)).0
happen_all-IsAway_example =
    happen_all-IsAway free failing dropped outage away 0 (tt, (tt, (other_text, (other_text, tt))))
      (refl, refl)
