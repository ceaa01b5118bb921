-- ===== src/Service/Create.antt =====
-- `Create`, `Delete` and the janitor of app/turl/service.go: what they leave in the caches, and what
-- `Create` answers with.
use turl.Base.{ℕ, ◌≡◌, refl, inr, ◌==◌, Option, none, some, ltb}
use turl.Base.Int.{pos, ◌+ℤ◌, ltb_ℤ}
use turl.Base58.{Bytes, encode, decode}
use turl.Errors.{Result, ok, err, panicked, is_duplicated_key, record_not_found}
use turl.Expiry.{Instant, Duration}
use turl.Action.{pure, raise, lift, attempt, wrap, ◌>>=◌, ◌>>◌}
use turl.Storage
use turl.Storage.{TinyUrl}
use turl.Service.{
  Parts, ModelUrl, Stored, clock, remember, expiry_of, after_insert, create, delete, after_reap,
  janitor_tick, janitor_batch_size,
}
use turl.Cache.Contract.{quiet_if, View}
use turl.Service.Safety.{
  IsHonest, IsCoherent, IsCoherent-quiet, OfReply, Keeps, keeps_pure, keeps_raise, keeps_panic,
  keeps_lift, keeps_quiet, keeps_if, keeps_bind, keeps_attempt, keeps_wrap, keeps_tried, post_ok,
}
use turl.Service.Remember.{remember_keeps}

module _ {W : Type 0} (view : View W) (s : Parts W) (honest : IsHonest view s) where
  open view use {Known}

  -- The stored link is registered for the URL.
  abbrev IsStored : Bytes → W → Stored → Type 0
  IsStored long w st = Known w st.seq long st.found.expires_at

  -- The answer is a registered link of the URL, under its number.
  abbrev IsCreated : Bytes → W → ModelUrl → Type 0
  IsCreated long w m =
      (n : ℕ) × (m.short_url ≡ encode n) × (m.long_url ≡ long) × Known w n long m.expires_at

  expiry_keeps : (ttl : Duration) → Keeps view (λ w. Unit {0}) (expiry_of s ttl) (λ w e. Unit {0})
  unfolding expiry_of clock
  expiry_keeps ttl =
      keeps_if view _ _ (ltb_ℤ (pos 0) ttl) (do now ← clock s; pure (some (now +ℤ ttl))) (pure none)
        (keeps_bind view _ (λ w t. Unit {0}) _ (clock s) _
          (keeps_quiet view _ _ _ honest.now (λ w a p e. tt))
          (λ now. keeps_pure view _ _ (some (now +ℤ ttl)) (λ w p. tt)))
        (keeps_pure view _ _ none (λ w p. tt))

  insert_keeps :
      (n : ℕ) (long : Bytes) (e : Option Instant)
      → Keeps view
          (λ w. Unit {0})
          (Storage.insert s.db n long e)
          (λ w r. Known w n long r.expires_at)
  unfolding Storage.insert
  insert_keeps n long e =
      keeps_quiet view _ _ _ (honest.db.create n long e)
        (λ w r p q. honest.db.create_ok n long e w r q)

  get_by_long_url_keeps :
      (long : Bytes)
      → Keeps view
          (λ w. Unit {0})
          (Storage.get_by_long_url s.db long)
          (λ w r. Known w r.short long r.expires_at)
  unfolding Storage.get_by_long_url
  get_by_long_url_keeps long =
      keeps_quiet view _ _ _ (honest.db.take_long_url long)
        (λ w r p q. honest.db.take_long_url_ok long w r q)

  existing_keeps :
      (long : Bytes)
      → Keeps view
          (λ w. Unit {0})
          (do
            r ← wrap "failed to get from db" (Storage.get_by_long_url s.db long)
            pure (record { seq = r.short; found = r }))
          (IsStored long)
  existing_keeps long =
      keeps_bind view _ (λ w r. Known w r.short long r.expires_at) _
        (wrap "failed to get from db" (Storage.get_by_long_url s.db long)) _
        (keeps_wrap view _ _ _ "failed to get from db" (get_by_long_url_keeps long))
        (λ r. keeps_pure view _ _ (record { seq = r.short; found = r }) (λ w p. p))

  after_insert_keeps :
      (n : ℕ) (long : Bytes) (r : Result TinyUrl)
      → Keeps view
          (λ w. OfReply (λ w r. Known w n long r.expires_at) w r)
          (after_insert s n long r)
          (IsStored long)
  unfolding after_insert
  after_insert_keeps n long (ok r) = record {
    at = λ w c p. (
      IsCoherent-quiet view w _ (honest.inc_shorten_created w) c,
      (honest.inc_shorten_created w).known n long r.expires_at p,
    );
  }
  after_insert_keeps n long (err e) =
      keeps_if view _ _ (is_duplicated_key e)
        (do
          r ← wrap "failed to get from db" (Storage.get_by_long_url s.db long)
          pure (record { seq = r.short; found = r }))
        (wrap "failed to insert into db" (raise e))
        (record { at = λ w c p. (existing_keeps long).at w c tt })
        (keeps_wrap view _ _ (raise e) "failed to insert into db" (keeps_raise view _ _ e))
  after_insert_keeps n long panicked = keeps_panic view _ _

  -- The last part of Create, once the link is stored.
  stored_keeps :
      (long : Bytes) (st : Stored)
      → Keeps view
          (λ w. IsStored long w st)
          (do
            remember s (encode st.seq) long st.found.expires_at
            pure (record {
              short_url = encode st.seq;
              long_url = long;
              created_at = st.found.created_at;
              deleted_at = st.found.deleted_at;
              expires_at = st.found.expires_at;
            }))
          (IsCreated long)
  stored_keeps long st =
      keeps_bind view _ (λ w u. IsStored long w st) _
        (remember s (encode st.seq) long st.found.expires_at) _
        (remember_keeps view s honest (encode st.seq) long st.seq st.found.expires_at (inr refl))
        (λ u. keeps_pure view _ _ _ (λ w p. (st.seq, refl, refl, p)))

  create_keeps :
      (long : Bytes) (ttl : Duration)
      → Keeps view (λ w. Unit {0}) (create s long ttl) (IsCreated long)
  unfolding create
  create_keeps long ttl =
      keeps_bind view _ (λ w u. Unit {0}) _ (lift (s.validate long)) _
        (keeps_lift view _ _ (s.validate long) (λ u w e p. tt))
        (λ u.
          keeps_bind view _ (λ w n. Unit {0}) _ (wrap "failed to generate sequence" s.next) _
            (keeps_wrap view _ _ s.next "failed to generate sequence"
              (keeps_quiet view _ _ s.next honest.next (λ w n p e. tt)))
            (λ n.
              keeps_bind view _ (λ w e. Unit {0}) _ (expiry_of s ttl) _ (expiry_keeps ttl)
                (λ e.
                  keeps_bind view _ (OfReply (λ w r. Known w n long r.expires_at)) _
                    (attempt (Storage.insert s.db n long e)) _
                    (keeps_attempt view _ _ _ (insert_keeps n long e))
                    (λ r.
                      keeps_bind view _ (IsStored long) _ (after_insert s n long r) _
                        (after_insert_keeps n long r) (stored_keeps long)))))

  -- Create keeps the caches coherent, however it ends.
  pub create-IsCoherent :
      (long : Bytes) (ttl : Duration) (w : W)
      → IsCoherent view w
      → IsCoherent view (create s long ttl w).0
  create-IsCoherent long ttl w c = ((create_keeps long ttl).at w c tt).0

  -- With parts that behave as documented: from coherent caches, a link that Create answers with,
  -- whether new or the one that the database had, is registered for the URL with the expiry of
  -- the answer, and its short URL is the text of its number.
  pub create-safe :
      (long : Bytes) (ttl : Duration) (m : ModelUrl) (w : W)
      → IsCoherent view w
      → (create s long ttl w).1 ≡ ok m
      → (n : ℕ) × (m.short_url ≡ encode n)
        × (m.long_url ≡ long)
        × Known (create s long ttl w).0 n long m.expires_at
  create-safe long ttl m w c h =
      post_ok (IsCreated long) (create s long ttl w) m ((create_keeps long ttl).at w c tt).1 h

  delete_keeps : (k : Bytes) → Keeps view (λ w. Unit {0}) (delete s k) (λ w u. Unit {0})
  unfolding delete Storage.delete
  delete_keeps k =
      keeps_bind view _ (λ w n. Unit {0}) _ (lift (decode k)) _
        (keeps_lift view _ _ (decode k) (λ n w e p. tt))
        (λ n.
          keeps_bind view _ (λ w u. Unit {0}) _ (Storage.delete s.db n) _
            (keeps_bind view _ (λ w m. Unit {0}) _ (s.db.delete_short n) _
              (keeps_quiet view _ _ _ (honest.db.delete_short n) (λ w m p e. tt))
              (λ rows.
                keeps_if view _ _ (rows == 0) (raise record_not_found) (pure tt)
                  (keeps_raise view _ _ record_not_found) (keeps_pure view _ _ tt (λ w p. tt))))
            (λ u. keeps_quiet view _ _ _ (honest.cache.del k) (λ w m p e. tt)))

  -- With parts that behave as documented: Delete keeps the caches coherent, however it ends.
  pub delete-IsCoherent : (k : Bytes) (w : W) → IsCoherent view w → IsCoherent view (delete s k w).0
  delete-IsCoherent k w c = ((delete_keeps k).at w c tt).0

  after_reap_keeps : (r : Result ℕ) → Keeps view (λ w. Unit {0}) (after_reap s r) (λ w u. Unit {0})
  unfolding after_reap
  after_reap_keeps (ok n) =
      keeps_quiet view _ _ _
        (λ w. quiet_if view (ltb 0 n) w (s.add_expired_reaped n w) (honest.add_expired_reaped n w))
        (λ w u p e. tt)
  after_reap_keeps (err e) = keeps_pure view _ _ tt (λ w p. tt)
  after_reap_keeps panicked = keeps_panic view _ _

  janitor_keeps : Keeps view (λ w. Unit {0}) (janitor_tick s) (λ w u. Unit {0})
  unfolding janitor_tick clock Storage.delete_expired
  janitor_keeps =
      keeps_bind view _ (λ w t. Unit {0}) _ (clock s) _
        (keeps_quiet view _ _ _ honest.now (λ w a p e. tt))
        (λ now.
          keeps_bind view _ (λ w r. Unit {0}) _
            (attempt (Storage.delete_expired s.db now janitor_batch_size)) _
            (keeps_tried view _ (λ w n. Unit {0}) _ (λ w. Unit {0})
              (λ w c p. (
                IsCoherent-quiet view w _ (honest.db.delete_expired_before now janitor_batch_size w)
                    c,
                tt,
              )))
            (after_reap_keeps))

  -- With parts that behave as documented: a tick of the janitor keeps the caches coherent,
  -- whether it deletes rows or fails.
  pub janitor-IsCoherent : (w : W) → IsCoherent view w → IsCoherent view (janitor_tick s w).0
  janitor-IsCoherent w c = (janitor_keeps.at w c tt).0
