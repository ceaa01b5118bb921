-- ===== src/RateLimit/Backoff.antt =====
-- What the limiters that count failures promise: growing delays up to a cap, and a fresh start after
-- an item is forgotten.
use native.Mathlib.Nat.{pow-le-pow_right, le_trans, mul_comm, le-mul_of_pos_right}
use turl.Base.{
  ℕ, zero, suc, ◌+◌, ◌*◌, ◌^◌, ◌≤◌, ◌<◌, ◌≡◌, ◌≢◌, refl, arith, ltb, if◌then◌else◌, Bool-cases,
  tests, lt→ltb, inl, inr,
}
use turl.Base.Int.{pos, ltb_ℤ}
use turl.RateLimit.{Comparable, finite, float_of, excess_loop, backoff_of}
use turl.RateLimit.Exponential
use turl.RateLimit.Exponential.{Exponential, Conversion, delay_of}
use turl.RateLimit.FastSlow
use turl.RateLimit.FastSlow.{FastSlow}

-- The delay that the limiter is meant to give: the base doubled for each failure, up to the cap.
pub capped_backoff : ℕ → ℕ → ℕ → ℕ
capped_backoff base max n = if ltb (base * 2 ^ n) max then base * 2 ^ n else max

-- From 63 failures on a positive base is past every cap that an int64 holds.
past_cap : (base n : ℕ) → 0 < base → 63 ≤ n → 2 ^ 63 ≤ base * 2 ^ n
past_cap base n hb hn =
    let power : 2 ^ 63 ≤ 2 ^ n = pow-le-pow_right (omega arith) hn in
    le_trans power (rw (mul_comm base (2 ^ n)) (le-mul_of_pos_right (2 ^ n) hb))

excess_small : (n : ℕ) → n < 2 ^ 53 → excess_loop 11 n ≡ 0
unfolding excess_loop
excess_small n h = ground arith

-- Below 2 ^ 53 the conversion to a float64 is exact.
float_of_small : (n : ℕ) → n < 2 ^ 53 → float_of n ≡ n
unfolding float_of
float_of_small n h = let none : excess_loop 11 n ≡ 0 = excess_small n h in rw none (ground arith)

delay_lem :
    (convert : Conversion) (base max n : ℕ)
    → 0 < base
    → base < 2 ^ 53
    → max < 2 ^ 63
    → base * 2 ^ n ≢ 2 ^ 63
    → delay_of convert (backoff_of base n) max ≡ pos (capped_backoff base max n)
unfolding delay_of backoff_of capped_backoff
delay_lem convert base max n hb exact hm hn = elim (Bool-cases (ltb n 1024)) [
  | inl few ↦ rw (few, float_of_small base exact) (ground arith)
  | inr many ↦ rw many (ground (arith, past_cap base n hb (omega tests)))
]

module _ {T : Type 0} ⦃c : Comparable T⦄ where
  -- Failures of an item are recorded one by one.
  pub fail_times : Conversion → ℕ → Exponential T → T → Exponential T
  fail_times convert zero r item = r
  fail_times convert (suc n) r item =
      (Exponential.when convert (fail_times convert n r item) item).0

  fail_times_base :
      (convert : Conversion) (n : ℕ) (r : Exponential T) (item : T)
      → ((fail_times convert n r item).base_delay ≡ r.base_delay)
        × ((fail_times convert n r item).max_delay ≡ r.max_delay)
  unfolding fail_times Exponential.when
  fail_times_base convert zero r item = (refl, refl)
  fail_times_base convert (suc n) r item = fail_times_base convert n r item

  retries-fail_times :
      (convert : Conversion) (n : ℕ) (r : Exponential T) (item : T)
      → Exponential.retries (fail_times convert n r item) item ≡ Exponential.retries r item + n
  unfolding fail_times Exponential.when Exponential.retries
  retries-fail_times convert zero r item = omega arith
  retries-fail_times convert (suc n) r item =
      rw ((c.same_iff item item).1 refl) (omega (arith, retries-fail_times convert n r item))

  when_delay :
      (convert : Conversion) (r : Exponential T) (item : T)
      → (Exponential.when convert r item).1
        ≡ delay_of convert (backoff_of r.base_delay (Exponential.retries r item)) r.max_delay
  unfolding Exponential.when Exponential.retries
  when_delay convert r item = refl

  forget_fields :
      (r : Exponential T) (item : T)
      → (Exponential.retries (Exponential.forget r item) item ≡ 0)
        × ((Exponential.forget r item).base_delay ≡ r.base_delay)
        × ((Exponential.forget r item).max_delay ≡ r.max_delay)
  unfolding Exponential.forget Exponential.retries
  forget_fields r item = (rw ((c.same_iff item item).1 refl), refl, refl)

  -- After an item is forgotten its delays are the base delay doubled for each failure since, up
  -- to the cap, for a positive base below 2 ^ 53 nanoseconds, which a float64 holds exactly, and a cap that
  -- an int64 holds, except where the product is 2 ^ 63 itself.
  pub when-forget :
      (convert : Conversion) (r : Exponential T) (item : T) (n : ℕ)
      → 0 < r.base_delay
      → r.base_delay < 2 ^ 53
      → r.max_delay < 2 ^ 63
      → r.base_delay * 2 ^ n ≢ 2 ^ 63
      → (Exponential.when convert (fail_times convert n (Exponential.forget r item) item) item).1
        ≡ pos (capped_backoff r.base_delay r.max_delay n)
  when-forget convert r item n hb exact hm hn =
      let kept = fail_times_base convert n (Exponential.forget r item) item in
      let counted = retries-fail_times convert n (Exponential.forget r item) item in
      let fields = forget_fields r item in
      let times : Exponential.retries (fail_times convert n (Exponential.forget r item) item) item
          ≡ n =
        omega (arith, counted, fields.0) in
      rw (when_delay, times, kept.0, kept.1, fields.1, fields.2)
        (delay_lem convert r.base_delay r.max_delay n hb exact hm hn)

  -- Where the product is 2 ^ 63 itself the guard lets it through, and the delay is the cap or what the
  -- conversion of a number that no int64 holds happens to give.
  pub when_unguarded :
      (convert : Conversion) (r : Exponential T) (item : T)
      → Exponential.retries r item < 1024
      → float_of r.base_delay * 2 ^ Exponential.retries r item ≡ 2 ^ 63
      → (Exponential.when convert r item).1 ≡ (
          if ltb_ℤ (pos r.max_delay) (convert (finite (2 ^ 63)))
          then pos r.max_delay
          else convert (finite (2 ^ 63)))
  unfolding delay_of backoff_of
  when_unguarded convert r item few e = rw (when_delay, lt→ltb _ _ few, e)

  -- Forgetting one item keeps the count of every other item.
  pub retries-forget_ne :
      (r : Exponential T) (item other : T)
      → item ≢ other
      → Exponential.retries (Exponential.forget r item) other ≡ Exponential.retries r other
  unfolding Exponential.forget Exponential.retries
  retries-forget_ne r item other h = elim (Bool-cases (c.same item other)) [
    | inl e ↦ absurd (h ((c.same_iff item other).0 e))
    | inr e ↦ rw e
  ]

  -- A limiter with quick and slow retries gives the quick delay while an item has fewer retries
  -- than quick attempts, and the slow delay from then on.
  when_fast :
      (r : FastSlow T) (item : T)
      → (FastSlow.when r item).1
        ≡ (if ltb (FastSlow.retries r item) r.max_fast_attempts then r.fast_delay else r.slow_delay)
  unfolding FastSlow.when FastSlow.retries
  when_fast r item = rw ((c.same_iff item item).1 refl) (ground arith)
