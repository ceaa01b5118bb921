-- ===== src/Service/Indexed.antt =====
-- `Create` of app/turl/service.go over a table with a unique index on its URLs: its answer is the short URL of
-- the row of the URL.
use turl.Base.{ℕ, ◌≡◌, refl, true, Option}
use mathlib.Core.Path.{subst}
use turl.Base58.{Bytes, encode}
use turl.Errors.{Error, Result, ok, err, panicked, is_duplicated_key}
use turl.Expiry.{Instant, Duration, encode_cache_value, cache_ttl}
use turl.Action.{raise, lift, attempt, wrap, caught, continue, ◌>>=◌}
use turl.Action.Holds.{
  Holds, holds_pure, holds_lift, holds_kept, holds_wrap, holds_attempt, holds_raise, holds_if,
  holds_bind, holds_after,
}
use turl.Storage
use turl.Storage.{TinyUrl, Database}
use turl.Service.{Parts, Stored, ModelUrl, clock, remember, expiry_of, after_insert, create}

-- The documented behaviour of a table with a unique index on its URLs: a row that is there is found,
-- and a second one is refused.
pub record IsIndexed {W : Type 0} (db : Database W) : Type 1 where
  -- The URL has a row with this number.
  pub Row : W → Bytes → ℕ → Type 0
  pub created :
      (n : ℕ) (l : Bytes) (e : Option Instant) (w : W) (r : TinyUrl)
      → (db.create n l e w).1 ≡ ok r
      → Row (db.create n l e w).0 l n
  pub refused :
      (n : ℕ) (l : Bytes) (e : Option Instant) (w : W) (m : ℕ)
      → Row w l m
      → (x : Error) × ((db.create n l e w).1 ≡ err x)
        × (is_duplicated_key x ≡ true)
        × Row (db.create n l e w).0 l m
  pub found :
      (l : Bytes) (w : W) (r : TinyUrl)
      → (db.take_long_url l w).1 ≡ ok r
      → Row (db.take_long_url l w).0 l r.short
  pub taken :
      (l : Bytes) (w : W) (m : ℕ)
      → Row w l m
      → (r : TinyUrl) × ((db.take_long_url l w).1 ≡ ok r) × (r.short ≡ m)

-- The other parts leave the rows of the table alone.
pub record LeavesRows {W : Type 0} (s : Parts W) (index : IsIndexed s.db) : Type 0 where
  pub now : (l : Bytes) (n : ℕ) (w : W) → index.Row w l n → index.Row (s.now w).0 l n
  pub next : (l : Bytes) (n : ℕ) (w : W) → index.Row w l n → index.Row (s.next w).0 l n
  pub inc_shorten_created :
      (l : Bytes) (n : ℕ) (w : W) → index.Row w l n → index.Row (s.inc_shorten_created w) l n
  pub set :
      (k v : Bytes) (t : Duration) (l : Bytes) (n : ℕ) (w : W)
      → index.Row w l n
      → index.Row (s.cache.set k v t w).0 l n

module _ {W : Type 0} (s : Parts W) (index : IsIndexed s.db) (leaves : LeavesRows s index) where
  open index use {Row}

  -- The row of a URL from which a call of Create answers.
  abbrev IsStored : Bytes → W → Stored → Type 0
  IsStored long w st = Row w long st.seq

  new_holds :
      (n : ℕ) (long : Bytes) (r : TinyUrl)
      → Holds (λ w. Row w long n) (after_insert s n long (ok r)) (IsStored long)
  unfolding after_insert
  new_holds n long r = record {
    at = λ w row st e.
        let same : record { seq = n; found = r } ≡ st = cc in
        subst (IsStored long (s.inc_shorten_created w)) same
          (leaves.inc_shorten_created long n w row);
  }

  -- What Create does after a refused insert gives the row that is found.
  refused_holds :
      (n : ℕ) (long : Bytes) (x : Error)
      → Holds (λ w. Unit {0}) (after_insert s n long (err x)) (IsStored long)
  unfolding after_insert Storage.get_by_long_url
  refused_holds n long x =
      let any : W → Type 0 = λ w. Unit {0} in
      holds_if any _ (is_duplicated_key x) _ _
        (holds_bind any (λ w r. Row w long r.short) _
          (wrap "failed to get from db" (s.db.take_long_url long)) _
          (holds_wrap any _ (s.db.take_long_url long) _
            (record { at = λ w p r h. index.found long w r h }))
          (λ r. holds_pure (λ w. Row w long r.short) _ _ (λ w row. row)))
        (holds_wrap any "failed to insert into db" (raise x) _ (holds_raise any _ x))

  inserted :
      (n : ℕ) (long : Bytes) (reply : W × Result TinyUrl)
      → ((r : TinyUrl) → reply.1 ≡ ok r → Row reply.0 long n)
      → (st : Stored) → (continue (caught reply) (after_insert s n long)).1 ≡ ok st
      → IsStored long (continue (caught reply) (after_insert s n long)).0 st
  inserted n long (w, ok r) made st e = (new_holds n long r).at w (made r refl) st e
  inserted n long (w, err x) made st e = (refused_holds n long x).at w tt st e
  inserted n long (w, panicked) made st e = absurd cc

  inserted_holds :
      (n : ℕ) (long : Bytes) (expires_at : Option Instant)
      → Holds
          (λ w. Unit {0})
          (attempt (Storage.insert s.db n long expires_at) >>= after_insert s n long)
          (IsStored long)
  unfolding Storage.insert
  inserted_holds n long expires_at = record {
    at = λ w p st e.
        inserted n long (s.db.create n long expires_at w) (index.created n long expires_at w) st e;
  }

  clock-Row : (l : Bytes) (n : ℕ) → Holds (λ w. Row w l n) (clock s) (λ w now. Row w l n)
  unfolding clock
  clock-Row l n = holds_kept (λ w. Row w l n) (clock s) (leaves.now l n)

  remember-Row :
      (k long : Bytes) (e : Option Instant) (l : Bytes) (n : ℕ)
      → Holds (λ w. Row w l n) (remember s k long e) (λ w u. Row w l n)
  unfolding remember
  remember-Row k long e l n = holds_bind _ _ _ (clock s) _ (clock-Row l n) (λ now.
      holds_bind _ _ _ (attempt (s.cache.set k (encode_cache_value long e) (cache_ttl now s.ttl e)))
        _ (holds_attempt (λ w. Row w l n) _ (leaves.set k _ _ l n))
        (λ u. holds_pure _ _ tt (λ w p. p)))

  -- An answer of Create is the short URL of the row of its URL.
  abbrev pub FromRow : Bytes → W → ModelUrl → Type 0
  FromRow long w m = (n : ℕ) × Row w long n × (m.short_url ≡ encode n)

  pub create-FromRow :
      (long : Bytes) (ttl : Duration) → Holds (λ w. Unit {0}) (create s long ttl) (FromRow long)
  unfolding create
  create-FromRow long ttl =
      let any : W → Type 0 = λ w. Unit {0} in
      holds_bind any _ _ (lift (s.validate long)) _ (holds_lift any _) (λ u.
        holds_bind any (λ w n. Unit {0}) _ (wrap "failed to generate sequence" s.next) _
          (holds_kept any _ (λ w p. tt))
          (λ n.
            holds_bind any (λ w e. Unit {0}) _ (expiry_of s ttl) _ (holds_kept any _ (λ w p. tt))
              (λ e.
                holds_after any _ (attempt (Storage.insert s.db n long e)) (after_insert s n long) _
                  (holds_bind any (IsStored long) _ _ _ (inserted_holds n long e) (λ st.
                    holds_bind _ _ (FromRow long)
                      (remember s (encode st.seq) long st.found.expires_at) _
                      (remember-Row (encode st.seq) long st.found.expires_at long st.seq)
                      (λ u'. holds_pure _ _ _ (λ w row. (st.seq, row, refl))))))))
