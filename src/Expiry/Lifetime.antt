-- ===== src/Expiry/Lifetime.antt =====
-- `cacheTTL` and `isExpired` of app/turl/service.go.
use turl.Base.{Option, none, ◌≡◌, ◌↔◌, true, some, arith, Bool-cases, inl, inr}
use turl.Base.Int.{
  pos, ◌+ℤ◌, ◌-ℤ◌, ◌≤ℤ◌, ◌<ℤ◌, ltb_ℤ, int_laws, ltb_ℤ_true, ltb_ℤ_false, ltb_ℤ_of_lt,
}
use turl.Expiry.{Instant, Duration, until, cache_ttl, is_expired}

-- A link is expired exactly when it has an expiry that is not after the present.
pub is_expired_lem : (now t : Instant) → (is_expired now (some t) ≡ true) ↔ (t ≤ℤ now)
unfolding is_expired
is_expired_lem now t = ground arith

until_live : (now t : Instant) → now <ℤ t → (pos 1 ≤ℤ until now t) × (now +ℤ until now t ≤ℤ t)
unfolding until ◌-ℤ◌ ◌+ℤ◌
until_live now t h = ground arith

until_past : (now t : Instant) → t ≤ℤ now → until now t ≤ℤ pos 0
unfolding until ◌-ℤ◌
until_past now t h = ground arith

until_near : (now t : Instant) → until now t <ℤ pos 10 → t ≤ℤ now +ℤ pos 10
unfolding until ◌-ℤ◌ ◌+ℤ◌
until_near now t h = ground arith

expired_near : (now t : Instant) → t ≤ℤ now +ℤ pos 10 → is_expired (now +ℤ pos 10) (some t) ≡ true
expired_near now t h = (is_expired_lem (now +ℤ pos 10) t).1 h

-- Where the cache lifetime is below 10 ns and the configured one is not, the link expires within 10 ns.
pub cache_ttl_near :
    (now : Instant) (config : Duration) (e : Option Instant)
    → pos 10 ≤ℤ config
    → cache_ttl now config e <ℤ pos 10
    → is_expired (now +ℤ pos 10) e ≡ true
unfolding cache_ttl
cache_ttl_near now config none long near = absurd (omega (arith, int_laws, long, near))
cache_ttl_near now config (some t) long near = elim (Bool-cases (ltb_ℤ (until now t) config)) [
  | inl less ↦
      let short : until now t <ℤ pos 10 = rw less at near in
      expired_near now t (until_near now t short)
  | inr more ↦
      let short : config <ℤ pos 10 = rw more at near in
      absurd (omega (arith, int_laws, long, short))
]

-- For a live link and a positive configured lifetime the cache lifetime is positive, at most the
-- configured one, and does not reach beyond the expiry.
pub cache_ttl_live :
    (now : Instant) (config : Duration) (t : Instant)
    → now <ℤ t
    → pos 1 ≤ℤ config
    → (pos 1 ≤ℤ cache_ttl now config (some t))
      × (cache_ttl now config (some t) ≤ℤ config)
      × (now +ℤ cache_ttl now config (some t) ≤ℤ t)
unfolding cache_ttl
cache_ttl_live now config t h c = elim (Bool-cases (ltb_ℤ (until now t) config)) [
  | inl less ↦
      let live = until_live now t h in
      rw less (live.0, omega (int_laws, ltb_ℤ_true (until now t) config less), live.1)
  | inr more ↦
      let live = until_live now t h in
      rw more (c, omega arith, omega (int_laws, ltb_ℤ_false (until now t) config more, live.1))
]

-- For a link that has expired and a positive configured lifetime the cache lifetime is not
-- positive.
pub cache_ttl_expired :
    (now : Instant) (config : Duration) (t : Instant)
    → t ≤ℤ now
    → pos 0 <ℤ config
    → cache_ttl now config (some t) ≤ℤ pos 0
unfolding cache_ttl
cache_ttl_expired now config t h c =
    rw (ltb_ℤ_of_lt (until now t) config (omega (arith, until_past now t h))) (until_past now t h)
