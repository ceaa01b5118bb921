-- ===== src/Tests/Script.antt =====
-- The token script over quotients of whole numbers, on keys in memory.
use turl.Base.{
  ℕ, suc, ◌+◌, ◌-◌, ◌*◌, ◌/◌, ◌≡◌, refl, ap, ◌==◌, Bool, true, false, Option, none, some, leb,
  if◌then◌else◌, arith,
}
use native.Mathlib.Nat.{div-eq_of_lt}
use turl.Base.Int.{pos}
use turl.Errors.{ok}
use turl.Action.{Action}
use turl.RateLimit.MaxOf.{Bucket}
use turl.RateLimit.RedisToken.{RedisToken, reserve_n, idle, rescue, spawn}
use turl.RateLimit.TokenScript.{Lua, ScriptKeys, run_script}
use turl.RateLimit.TokenScript.Refused.{AreDoubles, RefusesZero, reserve_n_refused}

abbrev Quotient : Type 0
Quotient = ℕ × ℕ

abbrev quotient_at_least : Quotient → Quotient → Bool
quotient_at_least (a, b) (c, d) = leb (c * b) (a * d)

abbrev quotients : Lua
quotients = record {
  Number = Quotient;
  tonumber = λ n. (n, 1);
  plus = λ x y. (x.0 * y.1 + y.0 * x.1, x.1 * y.1);
  minus = λ x y. (x.0 * y.1 - y.0 * x.1, x.1 * y.1);
  times = λ x y. (x.0 * y.0, x.1 * y.1);
  over = λ x y. (x.0 * y.1, x.1 * y.0);
  max = λ x y. if quotient_at_least x y then x else y;
  min = λ x y. if quotient_at_least x y then y else x;
  floor = λ x. (x.0 / x.1, 1);
  at_least = quotient_at_least;
}

doubles : AreDoubles quotients
doubles = record {
  times_exact = λ a b small. refl;
  below_half = λ a b half small.
      let zero_quotient : (a * 1 * 2) / (1 * b * 1) ≡ 0 = div-eq_of_lt (omega arith) in
      ap (λ n. (n, 1)) zero_quotient;
}

record Keys : Type 0 where
  clock : ℕ
  tokens : Option (Quotient × ℕ)
  timestamp : Option (Quotient × ℕ)

abbrev live : ℕ → Option (Quotient × ℕ) → Option Quotient
live now none = none
live now (some (v, end)) = if leb end now then none else some v

abbrev keys : ScriptKeys quotients
keys = record {
  State = Keys;
  get_tokens = λ s. live s.clock s.tokens;
  get_timestamp = λ s. live s.clock s.timestamp;
  set_tokens = λ ttl v s.
      if ttl.0 == 0 then none else some (record s { tokens = some (v, s.clock + ttl.0) });
  set_timestamp = λ ttl v s.
      if ttl.0 == 0 then none else some (record s { timestamp = some (v, s.clock + ttl.0) });
}

refuses : RefusesZero keys
refuses = record { set_tokens = λ v s. refl }

abbrev unset : Keys
unset = record { clock = 5000; tokens = none; timestamp = none }

abbrev never : Bucket
never = record { State = ℕ; allow = λ n. (suc n, false); reserve = λ n. (n, pos 0) }

abbrev drop : Action Keys (Unit {0})
drop s = (record s { tokens = none; timestamp = none }, ok tt)

abbrev limiter : ℕ → RedisToken never
limiter rate = record {
  rate = rate;
  capacity = 20;
  max_delay = pos 1000000000;
  redis_alive = true;
  spawned = 0;
  waiter = idle;
  rescue_limiter = 0;
}

abbrev clock_of : Keys → ℕ
clock_of s = s.clock

reserve_n_refused_example :
    reserve_n never (run_script quotients keys clock_of) drop (limiter 50000) unset
    ≡ (unset, ok (rescue never (spawn never (limiter 50000))))
reserve_n_refused_example =
    reserve_n_refused never doubles refuses drop clock_of (limiter 50000) unset refl (omega arith)
      (omega arith)
