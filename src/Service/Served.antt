-- ===== src/Service/Served.antt =====
-- `Retrieve` of app/turl/service.go answers a registered link, where its parts answer.
use turl.Base.{
  ℕ, ◌≡◌, ◌≢◌, ◌⊎◌, inl, inr, refl, sym, ap, ◌∙◌, true, Bool-cases, Option, none, some, arith,
  if◌then◌else◌,
}
use mathlib.Core.Path.{subst}
use turl.Base.Int.{pos, ◌≤ℤ◌, ◌<ℤ◌, ◌+ℤ◌, ltb_ℤ, int_laws, ltb_ℤ_true, ltb_ℤ_false}
use turl.Expiry.Lifetime.{cache_ttl_near}
use turl.Base58.{Bytes, decode}
use turl.Errors.{Error, Result, ok, err, panicked, expired, record_not_found, is_cache_miss}
use turl.Expiry.{Instant, Duration, decode_cache_value, encode_cache_value, is_expired, cache_ttl}
use turl.Expiry.Codec.{reread, reread_storable, IsStorable, decode_cache_value-encode_any}
use turl.Action.Gives.{
  continue_ok, continue_err, continue_tried, continue_panicked, continue_failed, panicked_or_not,
}
use turl.Action.{Action, continue, pure, raise, caught, ◌>>=◌, ◌>>◌}
use turl.Storage
use turl.Storage.{TinyUrl}
use turl.Cache.Contract.{View}
use turl.Service.{
  Parts, clock, remember, after_decode, after_get, from_cache, from_db, on_miss, retrieve,
}
use turl.Service.Safety.{IsHonest, IsEntry, IsCoherent, IsEntry-quiet}
use turl.Service.Retrieve.{names_decode}
use turl.Service.Grows.{remember-Growing}

module _ {W : Type 0} (view : View W) where
  open view use {Known, time}

  -- The parts answer: a registered link is in the database or was removed from it, a Get of the cache
  -- answers or misses, a Set for at least 10 ns does not panic, which the configured lifetime is, and the
  -- clock is not fast.
  pub record IsServing (s : Parts W) : Type 1 where
    -- The link of this number was deleted, or it expired and was reaped.
    pub Gone : W → ℕ → Type 0
    pub row :
        (n : ℕ) (l : Bytes) (e : Option Instant) (w : W)
        → Known w n l e
        → (((s.db.take_short n w).1 ≡ err record_not_found) × Gone (s.db.take_short n w).0 n)
          ⊎ ((r : TinyUrl) × ((s.db.take_short n w).1 ≡ ok r))
    pub get :
        (k : Bytes) (w : W)
        → ((v : Bytes) × ((s.cache.get k w).1 ≡ ok v))
          ⊎ ((e : Error) × ((s.cache.get k w).1 ≡ err e) × (is_cache_miss e ≡ true))
    pub set :
        (k v : Bytes) (t : Duration) (w : W) → pos 10 ≤ℤ t → (s.cache.set k v t w).1 ≢ panicked
    pub ttl : pos 10 ≤ℤ s.ttl
    pub now_time : (w : W) → (s.now w).1 ≤ℤ time (s.now w).0

  -- A number that was given to one link only.
  abbrev pub IsOnly : ℕ → Bytes → Option Instant → W → Type 0
  IsOnly n l e w = (l' : Bytes) (e' : Option Instant) → Known w n l' e' → (l' ≡ l) × (e' ≡ e)

  -- How a request for a link ends: with its URL; with the error of a link that has expired, when
  -- it has; with the error of a link that is not there, when it was removed; or with a panic, when it
  -- expires within 10 ns of the end.
  abbrev pub Serves : (W → ℕ → Type 0) → ℕ → Bytes → Option Instant → W × Result Bytes → Type 0
  Serves Gone n long e r =
      (r.1 ≡ ok long)
      ⊎ ((r.1 ≡ err expired) × (is_expired (time r.0) e ≡ true))
      ⊎ ((r.1 ≡ err record_not_found) × Gone r.0 n)
      ⊎ ((r.1 ≡ panicked) × (is_expired (time r.0 +ℤ pos 10) e ≡ true))

-- What has expired stays so.
is_expired_after :
    (t now : Instant) (e : Option Instant)
    → t ≤ℤ now
    → is_expired t e ≡ true
    → is_expired now e ≡ true
unfolding is_expired
is_expired_after t now none h is = absurd cc
is_expired_after t now (some x) h is = ground arith

later_by : (a b : Instant) → a ≤ℤ b → a +ℤ pos 10 ≤ℤ b +ℤ pos 10
later_by a b h = omega (arith, int_laws, h)

module _ {W : Type 0} (view : View W) (s : Parts W) (honest : IsHonest view s)
    (serving : IsServing view s) where
  open view use {Known, time}

  module _ (k : Bytes) (n : ℕ) (long : Bytes) (e : Option Instant) (named : decode k ≡ ok n)
      (storable : IsStorable e) where
    -- If the number has one link at the end, the request is served.
    abbrev Ends : W × Result Bytes → Type 0
    Ends r = IsOnly view n long e r.0 → Serves view serving.Gone n long e r

    -- The reading of the clock that a test of the expiry uses.
    expired_ends :
        (w : W) (e' : Option Instant)
        → e' ≡ e
        → is_expired (s.now w).1 e' ≡ true
        → Serves view serving.Gone n long e ((s.now w).0, err expired)
    expired_ends w e' same is = inr (
        inl (
          refl,
          is_expired_after (s.now w).1 (time (s.now w).0) e (serving.now_time w)
              (subst (λ x. is_expired (s.now w).1 x ≡ true) same is),
        ))

    decoded-Ends :
        (w : W) (l' : Bytes) (e' : Option Instant)
        → Known w n l' e'
        → Ends (continue (after_decode s (some (l', reread e')) w) (on_miss s k n))
    unfolding after_decode clock on_miss
    decoded-Ends w l' e' known = elim (Bool-cases (is_expired (s.now w).1 (reread e'))) [
      | inl is ↦ rw is (λ only.
          let own = only l' e' ((honest.now w).known n l' e' known) in
          expired_ends w (reread e') (ap reread own.1 ∙ reread_storable e storable) is)
      | inr live ↦ rw live (λ only. inl (ap ok (only l' e' ((honest.now w).known n l' e' known)).0))
    ]

    -- A value that the cache answered.
    entry-Ends :
        (w : W) (v : Bytes)
        → IsEntry view w k v
        → Known w n long e
        → Ends (continue (after_decode s (decode_cache_value v) w) (on_miss s k n))
    entry-Ends w v (m, l', e', names, known', value) known =
        let number : m ≡ n = names_decode k m n names named in
        subst (λ d. Ends (continue (after_decode s d w) (on_miss s k n)))
          (sym (ap decode_cache_value value ∙ decode_cache_value-encode_any l' e'))
          (decoded-Ends w l' e' (subst (λ i. Known w i l' e') number known'))

    -- The cache entry is written, or the call panics, and then the link expires within 10 ns.
    remember_ends :
        (l : Bytes) (x : Option Instant) (w : W)
        → ((remember s k l x w).1 ≡ ok tt)
          ⊎ (((remember s k l x w).1 ≡ panicked)
              × (is_expired (time (remember s k l x w).0 +ℤ pos 10) x ≡ true))
    unfolding remember clock
    remember_ends l x w =
        let u : W = (s.now w).0 in
        let t : Duration = cache_ttl (s.now w).1 s.ttl x in
        let v : Bytes = encode_cache_value l x in
        elim (panicked_or_not (s.cache.set k v t u).1) [
          | inr calm ↦ inl (ap (λ r. r.1) (continue_tried (s.cache.set k v t u) (pure tt) calm))
          | inl panics ↦
              let near : t <ℤ pos 10 = elim (Bool-cases (ltb_ℤ t (pos 10))) [
                | inl less ↦ ltb_ℤ_true t (pos 10) less
                | inr more ↦ absurd (serving.set k v t u (ltb_ℤ_false t (pos 10) more) panics)
              ] in
              let soon = cache_ttl_near (s.now w).1 s.ttl x serving.ttl near in
              let end = continue_failed (s.cache.set k v t u) (pure tt) panics in
              inr (
                ap (λ r. r.1) end,
                subst (λ r. is_expired (time r.0 +ℤ pos 10) x ≡ true) (sym end)
                    (is_expired_after ((s.now w).1 +ℤ pos 10) _ x
                      (later_by ((s.now w).1) (time (s.cache.set k v t u).0)
                        (omega (arith, serving.now_time w, (honest.cache.set k v t u).later)))
                      soon),
              )
        ]

    -- The row that the database answered.
    abbrev after_found : TinyUrl → Action W Bytes
    after_found r = do
      now ← clock s
      let found : Action W Bytes = do remember s k r.long_url r.expires_at; pure r.long_url
      if is_expired now r.expires_at then raise expired else found

    found-Ends : (r : TinyUrl) (w : W) → Known w n r.long_url r.expires_at → Ends (after_found r w)
    unfolding clock
    found-Ends r w known = elim (Bool-cases (is_expired (s.now w).1 r.expires_at)) [
      | inl is ↦ rw is (λ only.
          let own = only r.long_url r.expires_at ((honest.now w).known n _ _ known) in
          expired_ends w r.expires_at own.1 is)
      | inr live ↦
          let u : W = (s.now w).0 in
          let kept = (remember-Growing view s honest k r.long_url r.expires_at).at u in
          let stored = remember s k r.long_url r.expires_at u in
          let same : IsOnly view n long e stored.0 → (r.long_url ≡ long) × (r.expires_at ≡ e) =
            λ only.
              only r.long_url r.expires_at (kept.known n _ _ ((honest.now w).known n _ _ known)) in
          rw live (elim (remember_ends r.long_url r.expires_at u) [
            | inl done ↦
                subst Ends (sym (continue_ok stored (λ x. pure r.long_url) tt done))
                  (λ only. inl (ap ok (same only).0))
            | inr (panics, soon) ↦
                subst Ends (sym (continue_panicked stored (λ x. pure r.long_url) panics)) (λ only.
                  inr (
                    inr (
                      inr (
                        refl,
                        subst (λ x. is_expired (time stored.0 +ℤ pos 10) x ≡ true) (same only).1
                            soon,
                      ))))
          ])
    ]

    from_db-Ends : (w : W) → Known w n long e → Ends (from_db s k n w)
    unfolding from_db Storage.get_by_short_id
    from_db-Ends w known = elim (serving.row n long e w known) [
      | inl lost ↦
          subst Ends (sym (continue_err (s.db.take_short n w) after_found record_not_found lost.0))
            (λ only. inr (inr (inl (refl, lost.1))))
      | inr row ↦
          subst Ends (sym (continue_ok (s.db.take_short n w) after_found row.0 row.1))
            (found-Ends row.0 _ (honest.db.take_short_ok n w row.0 row.1))
    ]

    reply-Ends :
        (r : W × Result Bytes)
        → ((v : Bytes) × (r.1 ≡ ok v)) ⊎ ((x : Error) × (r.1 ≡ err x) × (is_cache_miss x ≡ true))
        → ((v : Bytes) → r.1 ≡ ok v → IsEntry view r.0 k v)
        → Known r.0 n long e
        → Ends (continue (continue (caught r) (after_get s)) (on_miss s k n))
    unfolding after_get after_decode on_miss
    reply-Ends (w, ok v) how entry known = entry-Ends w v (entry v refl) known
    reply-Ends (w, err x) (inl hit) entry known = absurd (let wrong = hit.1 in cc)
    reply-Ends (w, err x) (inr miss) entry known =
        let same : miss.0 ≡ x = (let eq = miss.1 in cc) in
        let is : is_cache_miss x ≡ true = subst (λ y. is_cache_miss y ≡ true) same miss.2 in
        rw is (from_db-Ends w known)
    reply-Ends (w, panicked) (inl hit) entry known = absurd (let wrong = hit.1 in cc)
    reply-Ends (w, panicked) (inr miss) entry known = absurd (let wrong = miss.1 in cc)

    -- With parts that behave as documented and answer: from coherent caches, a Retrieve of a short URL that
    -- decodes to the number of a registered link ends with the URL of this link, or with the error of
    -- a link that has expired, when it has, or with the error of a link that is not there, when it was
    -- removed, or panics, and then it expires within 10 ns, provided that the number was given to no other link and that the header of a cached value
    -- can hold its expiry.
    pub retrieve-Serves :
        (w : W)
        → IsCoherent view w
        → Known w n long e
        → IsOnly view n long e (retrieve s k w).0
        → Serves view serving.Gone n long e (retrieve s k w)
    unfolding retrieve from_cache
    retrieve-Serves w coherent known =
        let q = honest.cache.get k w in
        rw named (
          reply-Ends (s.cache.get k w) (serving.get k w)
            (λ v h. IsEntry-quiet view w _ k v q (coherent k v (honest.cache.get_ok k v w h)))
            (q.known n long e known))
