-- ===== src/Storage.antt =====
-- pkg/storage/storage.go: the records of links. The database behind gorm is a parameter, one field
-- for each statement that the program builds.
use turl.Base.{ℕ, Option, ◌==◌, if◌then◌else◌}
use turl.Base58.{Bytes}
use turl.Errors.{record_not_found}
use turl.Expiry.{Instant}
use turl.Action.{Action, pure, raise, ◌>>=◌, ◌>>◌}

-- TinyURL of pkg/storage, with the columns of gorm.Model that the service reads.
pub record TinyUrl : Type 0 where
  pub long_url : Bytes
  pub short : ℕ
  pub expires_at : Option Instant
  pub created_at : Instant
  pub deleted_at : Option Instant

-- The database: Create, which fills in the columns of the model; Take by either column; a Delete by
-- `short` with the number of rows; a hard Delete of at most `limit` rows that expired before an
-- instant; and a Ping of the connection.
pub record Database (W : Type 0) : Type 0 where
  pub create : ℕ → Bytes → Option Instant → Action W TinyUrl
  pub take_short : ℕ → Action W TinyUrl
  pub take_long_url : Bytes → Action W TinyUrl
  pub delete_short : ℕ → Action W ℕ
  pub delete_expired_before : Instant → ℕ → Action W ℕ
  pub sql_db : Action W (Unit {0})
  pub ping : Action W (Unit {0})

module _ {W : Type 0} (db : Database W) where
  unfoldable pub insert : ℕ → Bytes → Option Instant → Action W TinyUrl
  insert short long expires_at = db.create short long expires_at

  unfoldable pub get_by_short_id : ℕ → Action W TinyUrl
  get_by_short_id short = db.take_short short

  unfoldable pub get_by_long_url : Bytes → Action W TinyUrl
  get_by_long_url long = db.take_long_url long

  -- Delete: a statement that touched no row is reported as gorm.ErrRecordNotFound.
  unfoldable pub delete : ℕ → Action W (Unit {0})
  delete short = do
    rows ← db.delete_short short
    if rows == 0 then raise record_not_found else pure tt

  unfoldable pub delete_expired : Instant → ℕ → Action W ℕ
  delete_expired now limit = db.delete_expired_before now limit

  unfoldable pub ping : Action W (Unit {0})
  ping = do db.sql_db; db.ping

  unfoldable pub close : Action W (Unit {0})
  close = pure tt
