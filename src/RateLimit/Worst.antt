-- ===== src/RateLimit/Worst.antt =====
-- `MaxOfRateLimiter`: the worst answer of its limiters.
use turl.Base.{◌≡◌, ◌⊎◌, ◌↔◌, refl, ◌∙◌, true, false, arith, inl, inr, Bool-cases}
use turl.Base.Int.{pos, ◌≤ℤ◌}
use turl.Expiry.{Duration}
use turl.RateLimit.{Comparable}
use turl.RateLimit.Exponential
use turl.RateLimit.Exponential.{Exponential, Conversion}
use turl.RateLimit.FastSlow
use turl.RateLimit.FastSlow.{FastSlow}
use turl.RateLimit.MaxOf
use turl.RateLimit.MaxOf.{
  Bucket, Limiter, Limiters, bucket, exponential, fast_slow, max_of, nil, cons, longer, larger,
}

module _ {B : Bucket} {T : Type 0} where
  -- A property of every limiter of a list, and of one of them.
  abbrev pub Each : (Limiter B T → Type 0) → Limiters B T → Type 0
  Each P nil = Unit
  Each P (cons l ls) = P l × Each P ls

  abbrev pub OneOf : (Limiter B T → Type 0) → Limiters B T → Type 0
  OneOf P nil = ⊥
  OneOf P (cons l ls) = P l ⊎ OneOf P ls

longer_bounds : (a b : Duration) → (a ≤ℤ longer a b) × (b ≤ℤ longer a b)
longer_bounds a b = ground arith

longer_choice : (a b : Duration) → (longer a b ≡ a) ⊎ (longer a b ≡ b)
longer_choice a b = ground arith

module _ (B : Bucket) {T : Type 0} ⦃c : Comparable T⦄ where
  -- `Take` of the list allows an item exactly when every limiter allows it.
  take_all_lem :
      (ls : Limiters B T) (item : T)
      → ((MaxOf.take_all B ls item).1 ≡ true) ↔ Each (λ l. (MaxOf.take B l item).1 ≡ true) ls
  unfolding MaxOf.take_all
  take_all_lem nil item = (λ h. tt, λ h. refl)
  take_all_lem (cons l ls) item = elim (Bool-cases (MaxOf.take B l item).1) [
    | inl e ↦ rw e (λ h. (refl, (take_all_lem ls item).0 h), λ h. (take_all_lem ls item).1 h.1)
    | inr e ↦ rw e (λ h. cc, λ h. cc)
  ]

  -- A limiter that refuses ends the round: the limiters behind it keep their state.
  pub take_all_refused :
      (l : Limiter B T) (ls : Limiters B T) (item : T)
      → (MaxOf.take B l item).1 ≡ false
      → MaxOf.take_all B (cons l ls) item ≡ (cons (MaxOf.take B l item).0 ls, false)
  unfolding MaxOf.take_all
  take_all_refused l ls item e = rw e

  when_all_ge :
      (convert : Conversion) (ls : Limiters B T) (item : T) (ret : Duration)
      → (ret ≤ℤ (MaxOf.when_all B convert ls item ret).1)
        × Each (λ l. (MaxOf.when B convert l item).1 ≤ℤ (MaxOf.when_all B convert ls item ret).1) ls
  unfolding MaxOf.when_all
  when_all_ge convert nil item ret = (omega arith, tt)
  when_all_ge convert (cons l ls) item ret =
      let curr : Duration = (MaxOf.when B convert l item).1 in
      let bounds = longer_bounds curr ret in
      let ih = when_all_ge convert ls item (longer curr ret) in
      (omega (arith, bounds.1, ih.0), (omega (arith, bounds.0, ih.0), ih.1))

  when_all_choice :
      (convert : Conversion) (ls : Limiters B T) (item : T) (ret : Duration)
      → ((MaxOf.when_all B convert ls item ret).1 ≡ ret)
        ⊎ OneOf (λ l. (MaxOf.when_all B convert ls item ret).1 ≡ (MaxOf.when B convert l item).1) ls
  unfolding MaxOf.when_all
  when_all_choice convert nil item ret = inl refl
  when_all_choice convert (cons l ls) item ret =
      let curr : Duration = (MaxOf.when B convert l item).1 in
      elim (when_all_choice convert ls item (longer curr ret)) [
        | inr later ↦ inr (inr later)
        | inl e ↦ elim (longer_choice curr ret) [
          | inl mine ↦ inr (inl (e ∙ mine))
          | inr old ↦ inl (e ∙ old)
        ]
      ]

  -- The delay of the list is at least 0 and at least the delay of each limiter, and it is 0 or the
  -- delay of one of them.
  when_worst :
      (convert : Conversion) (ls : Limiters B T) (item : T)
      → (pos 0 ≤ℤ (MaxOf.when B convert (max_of ls) item).1)
        × Each
            (λ l. (MaxOf.when B convert l item).1 ≤ℤ (MaxOf.when B convert (max_of ls) item).1)
            ls
        × (((MaxOf.when B convert (max_of ls) item).1 ≡ pos 0)
            ⊎ OneOf
                (λ l. (MaxOf.when B convert (max_of ls) item).1 ≡ (MaxOf.when B convert l item).1)
                ls)
  unfolding MaxOf.when
  when_worst convert ls item =
      let low = when_all_ge convert ls item (pos 0) in
      (low.0, low.1, when_all_choice convert ls item (pos 0))

  exponential_forget :
      (r : Exponential T) (item : T) → Exponential.retries (Exponential.forget r item) item ≡ 0
  unfolding Exponential.forget Exponential.retries
  exponential_forget r item = rw ((c.same_iff item item).1 refl)

  fast_slow_forget :
      (r : FastSlow T) (item : T) → FastSlow.retries (FastSlow.forget r item) item ≡ 0
  unfolding FastSlow.forget FastSlow.retries
  fast_slow_forget r item = rw ((c.same_iff item item).1 refl)

  mutual
    unfolding MaxOf.retries MaxOf.forget

    retries-forget_any :
        (l : Limiter B T) (item : T) → MaxOf.retries B (MaxOf.forget B l item) item ≡ 0
    retries-forget_any (bucket s) item = refl
    retries-forget_any (exponential r) item = exponential_forget r item
    retries-forget_any (fast_slow r) item = fast_slow_forget r item
    retries-forget_any (max_of ls) item = retries_all-forget_all ls item

    retries_all-forget_all :
        (ls : Limiters B T) (item : T) → MaxOf.retries_all B (MaxOf.forget_all B ls item) item 0 ≡ 0
    retries_all-forget_all nil item = refl
    retries_all-forget_all (cons l ls) item =
        rw (retries-forget_any l item) (retries_all-forget_all ls item)

  -- Whatever limiters stand behind the interface, an item that was forgotten has no retries.
  retries-forget : (l : Limiter B T) (item : T) → MaxOf.retries B (MaxOf.forget B l item) item ≡ 0
  retries-forget l item = retries-forget_any l item
