-- ===== src/Service/Again.antt =====
-- `Create` of app/turl/service.go for a URL that already has a short URL.
use turl.Base.{ℕ, ◌≡◌, ◌≢◌, true, none}
use turl.Base.Int.{pos, ◌≤ℤ◌}
use turl.Base58.{Bytes}
use turl.Errors.{Error, Result, ok, err, panicked, is_duplicated_key}
use turl.Expiry.{Duration}
use turl.Action.{◌>>=◌}
use turl.Action.Returns.{Returns}
use turl.Storage
use turl.Storage.{TinyUrl, Database}
use turl.Service.{Parts, Stored}
use turl.Service.Indexed.{IsIndexed, LeavesRows}

-- The parts that a Create of this URL calls answer, the rows of the URL never expire, and a cache
-- takes any lifetime of at least 10 ns.
pub record IsAnswering {W : Type 0} (s : Parts W) (index : IsIndexed s.db) (long : Bytes)
    : Type 0 where
  pub valid : s.validate long ≡ ok tt
  pub next : (w : W) → (n : ℕ) × ((s.next w).1 ≡ ok n)
  pub lasting :
      (n : ℕ) (w : W) (r : TinyUrl)
      → index.Row w long n
      → (s.db.take_long_url long w).1 ≡ ok r
      → r.expires_at ≡ none
  pub ttl : pos 10 ≤ℤ s.ttl
  pub set : (k v : Bytes) (t : Duration) (w : W) → pos 10 ≤ℤ t → (s.cache.set k v t w).1 ≢ panicked

module _ {W : Type 0} (s : Parts W) (index : IsIndexed s.db) (leaves : LeavesRows s index)
    (long : Bytes) (answering : IsAnswering s index long) (m : ℕ) where
  open index use {Row}

  abbrev Kept : W → Type 0
  Kept w = Row w long m

  -- The reply of an insert of a URL that has a row.
  abbrev IsRefused : W → Result TinyUrl → Type 0
  IsRefused w reply = Kept w × (x : Error) × (reply ≡ err x) × (is_duplicated_key x ≡ true)

  -- The number of the row, without an expiry.
  abbrev IsLasting : W → TinyUrl → Type 0
  IsLasting w r = (r.short ≡ m) × (r.expires_at ≡ none)

  abbrev IsKept : W → Stored → Type 0
  IsKept w st = (st.seq ≡ m) × (st.found.expires_at ≡ none)
