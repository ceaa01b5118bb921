-- ===== src/RateLimit.antt =====
-- pkg/workqueue/rate_limiters.go: the limiters of this process. A limiter is a value, and a call
-- that changes it returns the new one; each call holds the limiter's lock from start to end, so
-- calls on one limiter come one after another. The counts of failures are plain numbers.
pub mod Exponential
pub mod FastSlow
pub mod MaxOf
pub mod Backoff
pub mod Worst
pub mod RedisToken
pub mod Rescue
pub mod TokenScript
use Prim.Native.Nat.{max}
use turl.Base.{
  ℕ, ◌+◌, ◌*◌, ◌^◌, ◌≡◌, ◌↔◌, Bool, true, false, Option, none, some, List, [], ◌∷◌, ltb, leb, ◌==◌,
  if◌then◌else◌, zero, suc, ◌/◌, ◌%◌,
}
use turl.Base.Int.{ℤ, pos, negsuc, ltb_ℤ}
use turl.Expiry.{Duration}

-- Go's `comparable`.
pub record Comparable (T : Type 0) : Type 0 where
  pub same : T → T → Bool
  pub same_iff : (a b : T) → (same a b ≡ true) ↔ (a ≡ b)

-- A map from items to counts of failures; none for an item that is not in the map.
abbrev pub Failures : Type 0 → Type 0
Failures T = T → Option ℕ

-- failures[item], 0 where there is no entry
abbrev pub count : Option ℕ → ℕ
count none = 0
count (some n) = n

abbrev pub is_none : Option ℕ → Bool
is_none none = true
is_none (some n) = false

module _ {T : Type 0} ⦃c : Comparable T⦄ where
  -- failures[item]++
  abbrev pub record_failure : Failures T → T → Failures T
  record_failure f item other = if c.same item other then some (count (f item) + 1) else f other

  -- delete(failures, item)
  abbrev pub delete : Failures T → T → Failures T
  delete f item other = if c.same item other then none else f other

-- A float64 product that is not negative: a number, an infinity, or not a number.
pub data Float : Type 0 where
  finite : ℕ → Float
  infinite nan : Float

-- How many low bits of an int64 a float64 has no room for: its significand has 53 bits.
excess_loop : ℕ → ℕ → ℕ
excess_loop zero n = 0
excess_loop (suc rounds) n =
    let rest = excess_loop rounds (n / 2) in if ltb n (2 ^ 53) then 0 else rest + 1

-- The nearer of two neighbours, and the even one half-way between them.
abbrev half_even : ℕ → ℕ → ℕ → ℕ
half_even q r unit = if ltb unit (2 * r) then q + 1 else if 2 * r == unit then q + q % 2 else q

-- float64(n) for an int64 that is not negative. Eleven rounds are enough below 2 ^ 64.
unfoldable pub float_of : ℕ → ℕ
unfolding excess_loop
float_of n = let unit = 2 ^ excess_loop 11 n in half_even (n / unit) (n % unit) unit * unit

-- float64(baseDelay) * math.Pow(2, float64(exp)), where the product of a float64 and a power of two is
-- exact; the power is infinite from 2 ^ 1024 on. A finite product beyond the largest float64 is infinite in the
-- source and kept here: both are above math.MaxInt64, which is all that is asked of them.
unfoldable pub backoff_of : ℕ → ℕ → Float
unfolding float_of
backoff_of base exp =
    if ltb exp 1024 then finite (float_of base * 2 ^ exp) else if base == 0 then nan else infinite
