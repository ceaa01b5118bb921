-- ===== src/Service/Retrieve.antt =====
-- `Retrieve` of app/turl/service.go answers only with the URL that was registered for the number that
-- the short URL spells.
use turl.Base.{ℕ, ◌^◌, ◌≡◌, ◌⊎◌, inl, inr, sym, false, ap, Option, none, some, arith, dec_lt}
use mathlib.Core.Path.{subst}
use turl.Base.Int.{◌≤ℤ◌}
use turl.Service.Remember.{remember_keeps}
use turl.Base58.{Bytes, encode, decode}
use turl.Base58.RoundTrip.{decode-encode, decode-encode_large}
use turl.Errors.{ok, expired}
use turl.Expiry.{Instant, is_expired}
use turl.Expiry.Codec.{IsStorable}
use turl.Action.{pure, raise, lift, ◌>>◌}
use turl.Storage
use turl.Storage.{TinyUrl}
use turl.Service.{Parts, clock, remember, from_cache, from_db, on_miss, retrieve}
use turl.Cache.Contract.{View, IsQuiet}
use turl.Service.Safety.{
  IsHonest, IsCoherent, Keeps, keeps_pure, keeps_raise, keeps_lift, keeps_quiet, keeps_bind,
  keeps_test, post_ok, Post-map,
}
use turl.Service.Hit.{
  Since, IsLive, HasUrl, OfHit, Since-quiet, is_expired_before, clock_keeps, from_cache_keeps,
}

-- A text that decodes stands for one number only.
pub names_decode :
    (k : Bytes) (n m : ℕ) → (decode k ≡ ok n) ⊎ (k ≡ encode n) → decode k ≡ ok m → n ≡ m
names_decode k n m (inl e) h = cc
names_decode k n m (inr e) h = elim (dec_lt n (58 ^ 8)) [
  | yes small ↦ cc (ap decode e, decode-encode n small)
  | no large ↦ cc (ap decode e, decode-encode_large n (omega arith))
]

module _ {W : Type 0} (view : View W) (s : Parts W) (honest : IsHonest view s) where
  open view use {Known, Cached, time}

  -- A call that began at the instant `start`.
  module _ (start : Instant) where
    -- A link of the database for the number that the key decodes to.
    abbrev IsFound : ℕ → Bytes → Option Instant → W → Type 0
    IsFound n long e w = Since view start w × Known w n long e

    IsFound-quiet :
        (n : ℕ) (long : Bytes) (e : Option Instant) (w w' : W)
        → IsQuiet view w w'
        → IsFound n long e w
        → IsFound n long e w'
    IsFound-quiet n long e w w' q p = (Since-quiet view start w w' q p.0, q.known n long e p.1)

    take_keeps :
        (n : ℕ)
        → Keeps view
            (Since view start)
            (s.db.take_short n)
            (λ w r. IsFound n r.long_url r.expires_at w)
    take_keeps n = keeps_quiet view (Since view start) _ _ (honest.db.take_short n) (λ w r p e.
        (Since-quiet view start w _ (honest.db.take_short n w) p, honest.db.take_short_ok n w r e))

    -- The end of the database's path, behind the test of the expiry.
    remembered :
        (k : Bytes) (n : ℕ) (r : TinyUrl)
        → decode k ≡ ok n
        → is_expired start r.expires_at ≡ false
        → Keeps view
            (λ w. Known w n r.long_url r.expires_at)
            (do remember s k r.long_url r.expires_at; pure r.long_url)
            (HasUrl view start k)
    remembered k n r named live =
        keeps_bind view _ (λ w u. Known w n r.long_url r.expires_at) _
          (remember s k r.long_url r.expires_at) _
          (remember_keeps view s honest k r.long_url n r.expires_at (inl named))
          (λ u.
            keeps_pure view _ _ r.long_url (λ w p. (n, r.expires_at, inl named, (λ fits. live), p)))

    from_db_keeps :
        (k : Bytes) (n : ℕ)
        → decode k ≡ ok n
        → Keeps view (Since view start) (from_db s k n) (HasUrl view start k)
    unfolding from_db Storage.get_by_short_id
    from_db_keeps k n named =
        keeps_bind view (Since view start) _ _ (s.db.take_short n) _ (take_keeps n) (λ r.
          keeps_bind view _ (λ w now. IsFound n r.long_url r.expires_at w × (start ≤ℤ now)) _
            (clock s) _
            (clock_keeps view s honest start (IsFound n r.long_url r.expires_at)
              (IsFound-quiet n r.long_url r.expires_at) (λ w p. p.0))
            (λ now.
              keeps_test view _ _ (is_expired now r.expires_at) (raise expired)
                (do remember s k r.long_url r.expires_at; pure r.long_url)
                (λ is. keeps_raise view _ _ expired)
                (λ live. record {
                  at = λ w c p.
                      (remembered k n r named
                          (is_expired_before view start now r.expires_at p.1 live)).at
                        w c p.0.1;
                })))

    on_miss_keeps :
        (k : Bytes) (n : ℕ) (hit : Option Bytes)
        → decode k ≡ ok n
        → Keeps view (λ w. OfHit view start k w hit) (on_miss s k n hit) (HasUrl view start k)
    unfolding on_miss
    on_miss_keeps k n (some long) named = keeps_pure view _ _ long (λ w p. p)
    on_miss_keeps k n none named = from_db_keeps k n named

    -- The key decodes to the number of a registered link with this URL that had not expired.
    abbrev pub Answers : Bytes → W → Bytes → Type 0
    Answers k w long =
        (n : ℕ) × (e : Option Instant) × (decode k ≡ ok n) × IsLive view start e × Known w n long e

    Answers-decoded :
        (k : Bytes) (n : ℕ)
        → decode k ≡ ok n
        → (w : W) (long : Bytes) → HasUrl view start k w long
        → Answers k w long
    Answers-decoded k n named w long (m, e, names, live, known) = (
      m,
      e,
      subst (λ i. decode k ≡ ok i) (sym (names_decode k m n names named)) named,
      live,
      known,
    )

    retrieve_keeps : (k : Bytes) → Keeps view (Since view start) (retrieve s k) (Answers k)
    unfolding retrieve
    retrieve_keeps k =
        keeps_bind view (Since view start) (λ w n. Since view start w × (decode k ≡ ok n)) _
          (lift (decode k)) _ (keeps_lift view _ _ (decode k) (λ n w e p. (p, e)))
          (λ n. record {
            at = λ w c p.
                let kept =
                  (keeps_bind view (Since view start) (OfHit view start k) (HasUrl view start k)
                      (from_cache s k) (on_miss s k n) (from_cache_keeps view s honest start k)
                      (λ hit. on_miss_keeps k n hit p.1)).at
                    w c p.0 in
                (
                  kept.0,
                  Post-map (HasUrl view start k) (Answers k) _ (Answers-decoded k n p.1) kept.1,
                );
          })

  -- Retrieve keeps the caches coherent, however it ends.
  pub retrieve-IsCoherent :
      (k : Bytes) (w : W) → IsCoherent view w → IsCoherent view (retrieve s k w).0
  retrieve-IsCoherent k w c = ((retrieve_keeps (time w) k).at w c (omega arith)).0

  answered :
      (k long : Bytes) (w : W)
      → IsCoherent view w
      → (retrieve s k w).1 ≡ ok long
      → Answers (time w) k (retrieve s k w).0 long
  answered k long w c h =
      post_ok (Answers (time w) k) (retrieve s k w) long
        ((retrieve_keeps (time w) k).at w c (omega arith)).1 h

  -- With parts that behave as documented: from coherent caches, a URL that Retrieve answers is
  -- the URL of a registered link, and the short URL decodes to the number of this link, whether
  -- the answer came from a cache or the database.
  pub retrieve-safe :
      (k long : Bytes) (w : W)
      → IsCoherent view w
      → (retrieve s k w).1 ≡ ok long
      → (n : ℕ) × (e : Option Instant) × (decode k ≡ ok n) × Known (retrieve s k w).0 n long e
  retrieve-safe k long w c h =
      let (n, e, named, live, known) = answered k long w c h in (n, e, named, known)

  -- With parts that behave as documented, where the registered links have no expiry or one that the
  -- header of a cached value can hold: from coherent caches, a URL that Retrieve answers is the URL of a
  -- registered link whose number the short URL decodes to and that had not expired when Retrieve was
  -- called, whether the answer came from a cache or the database.
  pub retrieve-live :
      (k long : Bytes) (w : W)
      → ((n : ℕ) (l : Bytes) (e : Option Instant) → Known (retrieve s k w).0 n l e → IsStorable e)
      → IsCoherent view w
      → (retrieve s k w).1 ≡ ok long
      → (n : ℕ) × (e : Option Instant) × (decode k ≡ ok n)
        × Known (retrieve s k w).0 n long e
        × (is_expired (time w) e ≡ false)
  retrieve-live k long w storable c h =
      let (n, e, named, live, known) = answered k long w c h in
      (n, e, named, known, live (storable n long e known))
