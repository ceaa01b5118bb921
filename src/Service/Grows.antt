-- ===== src/Service/Grows.antt =====
-- No operation of app/turl/service.go takes back that a link was registered, however it ends, and
-- each takes its time.
use turl.Base.{ℕ, Bool, true, false, Option, none, some, arith, ltb, ◌==◌, if◌then◌else◌, String}
use turl.Base.Int.{pos, ◌≤ℤ◌, ◌+ℤ◌, ltb_ℤ}
use turl.Base58.{Bytes, decode, encode}
use turl.Errors.{
  Result, ok, err, panicked, expired, is_cache_miss, is_duplicated_key, record_not_found,
}
use turl.Expiry.{Instant, Duration, encode_cache_value, decode_cache_value, cache_ttl, is_expired}
use turl.Action.{Action, pure, raise, lift, attempt, wrap, continue, ◌>>=◌, ◌>>◌}
use turl.Storage
use turl.Storage.{TinyUrl}
use turl.Cache.Contract.{View, IsQuiet, quiet_if}
use turl.Service.{
  Parts, clock, remember, expiry_of, after_insert, create, delete, after_reap, janitor_tick,
  janitor_batch_size, after_decode, after_get, from_cache, from_db, on_miss, retrieve, get_by_long,
}
use turl.Service.Safety.{IsHonest}

module _ {W : Type 0} (view : View W) where
  open view use {Known, time}

  -- What was registered is registered, and it is not earlier.
  pub record Grows (w w' : W) : Type 0 where
    pub known : (n : ℕ) (l : Bytes) (e : Option Instant) → Known w n l e → Known w' n l e
    pub later : time w ≤ℤ time w'

  pub Grows-refl : (w : W) → Grows w w
  Grows-refl w = record { known = λ n l e k. k; later = omega arith }

  pub Grows-trans : (u v w : W) → Grows u v → Grows v w → Grows u w
  Grows-trans u v w p q = record {
    known = λ n l e k. q.known n l e (p.known n l e k);
    later = omega (arith, p.later, q.later);
  }

  pub quiet-Grows : (w w' : W) → IsQuiet view w w' → Grows w w'
  quiet-Grows w w' q = record { known = q.known; later = q.later }

-- The same of a call, however it ends.
pub record Growing {W A : Type 0} (view : View W) (m : Action W A) : Type 0 where
  pub at : (w : W) → Grows view w (m w).0

module _ {W A : Type 0} (view : View W) where
  -- A call that only tests or ends.
  pub Growing-lift : (r : Result A) → Growing view (lift r)
  Growing-lift r = record { at = Grows-refl view }

  pub Growing-quiet : (m : Action W A) → ((w : W) → IsQuiet view w (m w).0) → Growing view m
  Growing-quiet m q = record { at = λ w. quiet-Grows view w (m w).0 (q w) }

  pub Growing-if :
      (b : Bool) (m k : Action W A)
      → Growing view m
      → Growing view k
      → Growing view (if b then m else k)
  Growing-if true m k p q = p
  Growing-if false m k p q = q

  pub Growing-attempt : (m : Action W A) → Growing view m → Growing view (attempt m)
  Growing-attempt m p = record { at = λ w. go w (m w) (p.at w) }
    where
      go : (w : W) (r : W × Result A) → Grows view w r.0 → Grows view w (attempt (λ u. r) w).0
      go w (u, ok a) g = g
      go w (u, err e) g = g
      go w (u, panicked) g = g

  pub Growing-wrap : (s : String) (m : Action W A) → Growing view m → Growing view (wrap s m)
  Growing-wrap s m p = record { at = λ w. go w (m w) (p.at w) }
    where
      go : (w : W) (r : W × Result A) → Grows view w r.0 → Grows view w (wrap s (λ u. r) w).0
      go w (u, ok a) g = g
      go w (u, err e) g = g
      go w (u, panicked) g = g

module _ {W A B : Type 0} (view : View W) where
  pub Growing-bind :
      (m : Action W A) (f : A → Action W B)
      → Growing view m
      → ((a : A) → Growing view (f a))
      → Growing view (m >>= f)
  Growing-bind m f p q = record { at = λ w. go w (m w) (p.at w) }
    where
      go : (w : W) (r : W × Result A) → Grows view w r.0 → Grows view w (continue r f).0
      go w (u, ok a) g = Grows-trans view w u _ g ((q a).at u)
      go w (u, err e) g = g
      go w (u, panicked) g = g

module _ {W : Type 0} (view : View W) (s : Parts W) (honest : IsHonest view s) where
  clock-Growing : Growing view (clock s)
  unfolding clock
  clock-Growing = Growing-quiet view (clock s) honest.now

  pub remember-Growing : (k l : Bytes) (e : Option Instant) → Growing view (remember s k l e)
  unfolding remember
  remember-Growing k l e = Growing-bind view (clock s) _ clock-Growing (λ now.
      Growing-bind view (attempt (s.cache.set k (encode_cache_value l e) (cache_ttl now s.ttl e))) _
        (Growing-attempt view _ (record {
          at = λ w.
              let write = honest.cache.set k (encode_cache_value l e) (cache_ttl now s.ttl e) w in
              record { known = write.known; later = write.later };
        }))
        (λ r. Growing-lift view (ok tt)))

  expiry-Growing : (ttl : Duration) → Growing view (expiry_of s ttl)
  unfolding expiry_of
  expiry-Growing ttl =
      Growing-if view (ltb_ℤ (pos 0) ttl) (do now ← clock s; pure (some (now +ℤ ttl))) (pure none)
        (Growing-bind view (clock s) _ clock-Growing
          (λ now. Growing-lift view (ok (some (now +ℤ ttl)))))
        (Growing-lift view (ok none))

  after_insert-Growing :
      (n : ℕ) (long : Bytes) (r : Result TinyUrl) → Growing view (after_insert s n long r)
  unfolding after_insert Storage.get_by_long_url
  after_insert-Growing n long (ok r) = record {
    at = λ w. quiet-Grows view w _ (honest.inc_shorten_created w);
  }
  after_insert-Growing n long (err e) =
      Growing-if view (is_duplicated_key e) _ (wrap "failed to insert into db" (raise e))
        (Growing-bind view (wrap "failed to get from db" (Storage.get_by_long_url s.db long)) _
          (Growing-wrap view _ _ (Growing-quiet view _ (honest.db.take_long_url long)))
          (λ r. Growing-lift view (ok (record { seq = r.short; found = r }))))
        (Growing-wrap view "failed to insert into db" (raise e) (Growing-lift view (err e)))
  after_insert-Growing n long panicked = Growing-lift view panicked

  pub create-Growing : (long : Bytes) (ttl : Duration) → Growing view (create s long ttl)
  unfolding create Storage.insert
  create-Growing long ttl =
      Growing-bind view (lift (s.validate long)) _ (Growing-lift view (s.validate long)) (λ u.
        Growing-bind view (wrap "failed to generate sequence" s.next) _
          (Growing-wrap view _ s.next (Growing-quiet view s.next honest.next))
          (λ n. Growing-bind view (expiry_of s ttl) _ (expiry-Growing ttl) (λ e.
            Growing-bind view (attempt (Storage.insert s.db n long e)) _
              (Growing-attempt view _ (Growing-quiet view _ (honest.db.create n long e)))
              (λ r.
                Growing-bind view (after_insert s n long r) _ (after_insert-Growing n long r) (λ st.
                  Growing-bind view (remember s (encode st.seq) long st.found.expires_at) _
                    (remember-Growing (encode st.seq) long st.found.expires_at)
                    (λ v. Growing-lift view (ok _)))))))

  pub delete-Growing : (k : Bytes) → Growing view (delete s k)
  unfolding delete Storage.delete
  delete-Growing k = Growing-bind view (lift (decode k)) _ (Growing-lift view (decode k)) (λ n.
      Growing-bind view (Storage.delete s.db n) _
        (Growing-bind view (s.db.delete_short n) _ (Growing-quiet view _ (honest.db.delete_short n))
          (λ rows.
            Growing-if view (rows == 0) (raise record_not_found) (pure tt)
              (Growing-lift view (err record_not_found)) (Growing-lift view (ok tt))))
        (λ u. Growing-quiet view _ (honest.cache.del k)))

  after_reap-Growing : (r : Result ℕ) → Growing view (after_reap s r)
  unfolding after_reap
  after_reap-Growing (ok n) =
      Growing-quiet view _
        (λ w. quiet_if view (ltb 0 n) w (s.add_expired_reaped n w) (honest.add_expired_reaped n w))
  after_reap-Growing (err e) = Growing-lift view (ok tt)
  after_reap-Growing panicked = Growing-lift view panicked

  pub janitor-Growing : Growing view (janitor_tick s)
  unfolding janitor_tick Storage.delete_expired
  janitor-Growing = Growing-bind view (clock s) _ clock-Growing (λ now.
      Growing-bind view (attempt (Storage.delete_expired s.db now janitor_batch_size)) _
        (Growing-attempt view _
          (Growing-quiet view _ (honest.db.delete_expired_before now janitor_batch_size)))
        after_reap-Growing)

  after_decode-Growing : (d : Option (Bytes × Option Instant)) → Growing view (after_decode s d)
  unfolding after_decode
  after_decode-Growing none = Growing-lift view (ok none)
  after_decode-Growing (some (long, e)) = Growing-bind view (clock s) _ clock-Growing (λ now.
      Growing-if view (is_expired now e) (raise expired) (pure (some long))
        (Growing-lift view (err expired)) (Growing-lift view (ok (some long))))

  after_get-Growing : (r : Result Bytes) → Growing view (after_get s r)
  unfolding after_get
  after_get-Growing (ok v) = after_decode-Growing (decode_cache_value v)
  after_get-Growing (err e) =
      Growing-if view (is_cache_miss e) (pure none) (raise e) (Growing-lift view (ok none))
        (Growing-lift view (err e))
  after_get-Growing panicked = Growing-lift view panicked

  from_db-Growing : (k : Bytes) (n : ℕ) → Growing view (from_db s k n)
  unfolding from_db Storage.get_by_short_id
  from_db-Growing k n =
      Growing-bind view (s.db.take_short n) _ (Growing-quiet view _ (honest.db.take_short n)) (λ r.
        Growing-bind view (clock s) _ clock-Growing (λ now.
          Growing-if view (is_expired now r.expires_at) (raise expired)
            (do remember s k r.long_url r.expires_at; pure r.long_url)
            (Growing-lift view (err expired))
            (Growing-bind view (remember s k r.long_url r.expires_at) _
              (remember-Growing k r.long_url r.expires_at)
              (λ u. Growing-lift view (ok r.long_url)))))

  on_miss-Growing : (k : Bytes) (n : ℕ) (hit : Option Bytes) → Growing view (on_miss s k n hit)
  unfolding on_miss
  on_miss-Growing k n (some long) = Growing-lift view (ok long)
  on_miss-Growing k n none = from_db-Growing k n

  pub retrieve-Growing : (k : Bytes) → Growing view (retrieve s k)
  unfolding retrieve from_cache
  retrieve-Growing k = Growing-bind view (lift (decode k)) _ (Growing-lift view (decode k)) (λ n.
      Growing-bind view (from_cache s k) _
        (Growing-bind view (attempt (s.cache.get k)) _
          (Growing-attempt view _ (Growing-quiet view _ (honest.cache.get k))) after_get-Growing)
        (on_miss-Growing k n))

  pub find-Growing : (long : Bytes) → Growing view (get_by_long s long)
  unfolding get_by_long Storage.get_by_long_url
  find-Growing long =
      Growing-bind view (lift (s.validate long)) _ (Growing-lift view (s.validate long)) (λ u.
        Growing-bind view (Storage.get_by_long_url s.db long) _
          (Growing-quiet view _ (honest.db.take_long_url long)) (λ r. Growing-lift view (ok _)))
