-- ===== src/Service/Hit.antt =====
-- The first half of `Retrieve` of app/turl/service.go: what an answer of the caches stands for.
use turl.Base.{ℕ, ◌≡◌, sym, refl, false, ◌∙◌, ap, Option, none, some, arith}
use mathlib.Core.Path.{subst}
use turl.Base.Int.{◌≤ℤ◌}
use turl.Base58.{Bytes}
use turl.Errors.{Result, ok, err, panicked, expired, is_cache_miss}
use turl.Expiry.{Instant, decode_cache_value, is_expired}
use turl.Expiry.Codec.{reread, reread_storable, IsStorable, decode_cache_value-encode_any}
use turl.Action.{pure, raise, attempt}
use turl.Service.{Parts, clock, after_decode, after_get, from_cache}
use turl.Cache.Contract.{View, IsQuiet}
use turl.Service.Safety.{
  IsHonest, Names, IsEntry, IsEntry-quiet, IsCoherent-quiet, OfReply, Keeps, keeps_pure,
  keeps_raise, keeps_panic, keeps_quiet, keeps_if, keeps_bind, keeps_attempt, keeps_tried,
  keeps_test, keeps_both, Post-of,
}

-- A call that began at the instant `start`.
module _ {W : Type 0} (view : View W) (start : Instant) where
  open view use {Known, time}

  -- It is now that instant or later.
  abbrev pub Since : W → Type 0
  Since w = start ≤ℤ time w

  -- A link with an expiry that a cache can hold had not expired by then.
  abbrev pub IsLive : Option Instant → Type 0
  IsLive e = IsStorable e → is_expired start e ≡ false

  -- A registered link that the key stands for has this URL, and had not expired.
  abbrev pub HasUrl : Bytes → W → Bytes → Type 0
  HasUrl k w long = (n : ℕ) × (e : Option Instant) × Names view k n × IsLive e × Known w n long e

  abbrev pub OfHit : Bytes → W → Option Bytes → Type 0
  OfHit k w none = Since w
  OfHit k w (some long) = HasUrl k w long

  -- A link whose entry was read, with the expiry as it was read.
  abbrev pub IsRead : Bytes → Bytes → Option Instant → W → Type 0
  IsRead k long e' w =
      Since w × (n : ℕ) × (e : Option Instant) × Names view k n × (e' ≡ reread e) × Known w n long e

  abbrev pub OfDecoded : Bytes → W → Option (Bytes × Option Instant) → Type 0
  OfDecoded k w none = Since w
  OfDecoded k w (some (long, e')) = IsRead k long e' w

  pub Since-quiet : (w w' : W) → IsQuiet view w w' → Since w → Since w'
  Since-quiet w w' q h = omega (arith, q.later)

  pub decoded_entry :
      (k v : Bytes) (w : W) → Since w → IsEntry view w k v → OfDecoded k w (decode_cache_value v)
  decoded_entry k v w since (n, l, e, names, known, value) =
      subst (OfDecoded k w) (sym (ap decode_cache_value value ∙ decode_cache_value-encode_any l e))
        (since, n, e, names, refl, known)

  pub IsRead-quiet :
      (k long : Bytes) (e' : Option Instant) (w w' : W)
      → IsQuiet view w w'
      → IsRead k long e' w
      → IsRead k long e' w'
  IsRead-quiet k long e' w w' q (since, n, e, names, same, known) =
      (Since-quiet w w' q since, n, e, names, same, q.known n long e known)

  -- What had not expired when the clock was read had not expired before.
  pub is_expired_before :
      (now : Instant) (e : Option Instant)
      → start ≤ℤ now
      → is_expired now e ≡ false
      → is_expired start e ≡ false
  unfolding is_expired
  is_expired_before now none h live = refl
  is_expired_before now (some t) h live = ground arith

  pub IsRead-HasUrl :
      (k long : Bytes) (e' : Option Instant) (now : Instant) (w : W)
      → start ≤ℤ now
      → is_expired now e' ≡ false
      → IsRead k long e' w
      → HasUrl k w long
  IsRead-HasUrl k long e' now w h live (since, n, e, names, same, known) = (
    n,
    e,
    names,
    (λ fits.
        is_expired_before now e h
          (subst (λ x. is_expired now x ≡ false) (same ∙ reread_storable e fits) live)),
    known,
  )

module _ {W : Type 0} (view : View W) (s : Parts W) (honest : IsHonest view s) where
  open view use {Known, Cached, time}

  get_keeps : (k : Bytes) → Keeps view (λ w. Unit {0}) (s.cache.get k) (λ w v. IsEntry view w k v)
  get_keeps k = record {
    at = λ w c p. (
      IsCoherent-quiet view w _ (honest.cache.get k w) c,
      Post-of view (λ w. Unit {0}) (λ w v. IsEntry view w k v) (s.cache.get k w).0
          (s.cache.get k w).1
          (λ v e.
            IsEntry-quiet view w _ k v (honest.cache.get k w)
              (c k v (honest.cache.get_ok k v w e))),
    );
  }

  module _ (start : Instant) where
    -- A fact that no call undoes is still there when the clock has been read, and the clock is not
    -- before `start`.
    pub clock_keeps :
        (P : W → Type 0)
        → ((w w' : W) → IsQuiet view w w' → P w → P w')
        → ((w : W) → P w → Since view start w)
        → Keeps view P (clock s) (λ w now. P w × (start ≤ℤ now))
    unfolding clock
    clock_keeps P quiet since = keeps_quiet view P _ (clock s) honest.now (λ w now p e. (
      quiet w _ (honest.now w) p,
      subst (λ t. start ≤ℤ t) {x = (s.now w).1} (cc) (omega (arith, honest.now_time w, since w p)),
    ))

    after_decode_keeps :
        (k : Bytes) (d : Option (Bytes × Option Instant))
        → Keeps view (λ w. OfDecoded view start k w d) (after_decode s d) (OfHit view start k)
    unfolding after_decode
    after_decode_keeps k none = keeps_pure view _ _ none (λ w p. p)
    after_decode_keeps k (some (long, e)) =
        keeps_bind view _ (λ w now. IsRead view start k long e w × (start ≤ℤ now)) _ (clock s) _
          (clock_keeps (IsRead view start k long e) (IsRead-quiet view start k long e) (λ w p. p.0))
          (λ now.
            keeps_test view _ _ (is_expired now e) (raise expired) (pure (some long))
              (λ is. keeps_raise view _ _ expired)
              (λ live.
                keeps_pure view _ _ (some long)
                  (λ w p. IsRead-HasUrl view start k long e now w p.1 live p.0)))

    after_get_keeps :
        (k : Bytes) (r : Result Bytes)
        → Keeps view
            (λ w. Since view start w × OfReply (λ w v. IsEntry view w k v) w r)
            (after_get s r)
            (OfHit view start k)
    unfolding after_get
    after_get_keeps k (ok v) = record {
      at = λ w c p.
          (after_decode_keeps k (decode_cache_value v)).at w c
            (decoded_entry view start k v w p.0 p.1);
    }
    after_get_keeps k (err e) =
        keeps_if view _ _ (is_cache_miss e) (pure none) (raise e)
          (keeps_pure view _ _ none (λ w p. p.0)) (keeps_raise view _ _ e)
    after_get_keeps k panicked = keeps_panic view _ _

    -- The reply of the cache, whose errors are looked at.
    get_attempt_keeps :
        (k : Bytes)
        → Keeps view
            (Since view start)
            (attempt (s.cache.get k))
            (λ w r. Since view start w × OfReply (λ w v. IsEntry view w k v) w r)
    get_attempt_keeps k =
        keeps_both view (Since view start) _ _ (attempt (s.cache.get k))
          (keeps_tried view (Since view start) (λ w v. Unit {0}) (s.cache.get k) (Since view start)
            (λ w c p.
              let q = honest.cache.get k w in
              (IsCoherent-quiet view w _ q c, Since-quiet view start w _ q p)))
          (keeps_attempt view (Since view start) (λ w v. IsEntry view w k v) (s.cache.get k)
            (record { at = λ w c p. (get_keeps k).at w c tt }))

    pub from_cache_keeps :
        (k : Bytes) → Keeps view (Since view start) (from_cache s k) (OfHit view start k)
    unfolding from_cache
    from_cache_keeps k =
        keeps_bind view (Since view start) _ _ (attempt (s.cache.get k)) (after_get s)
          (get_attempt_keeps k) (after_get_keeps k)
