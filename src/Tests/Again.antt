-- ===== src/Tests/Again.antt =====
-- Create twice for one URL, over a table with a unique index that is a list of URLs and numbers.
use turl.Base.{
  ℕ, ◌≡◌, refl, sym, ap, ◌∙◌, Bool, true, Option, none, some, List, [], ◌∷◌, arith, if◌then◌else◌,
}
use mathlib.Core.Path.{subst}
use turl.Base.Int.{pos, ltb_ℤ}
use turl.Base58
use turl.Base58.{Bytes, codes, encode, encode_loop}
use turl.Errors.{Result, ok, err, duplicated_key, record_not_found, cache_miss, is_duplicated_key}
use turl.Action.{Action, pure, raise, panic}
use turl.Expiry.{Duration, cache_ttl}
use turl.Storage
use turl.Storage.{TinyUrl, Database}
use turl.Service.{Parts, ModelUrl, create, remember, clock, expiry_of, after_insert}
use turl.Service.Indexed.{IsIndexed}
use turl.Tests.World.{same_bytes}

abbrev Rows : Type 0
Rows = List (Bytes × ℕ)

lookup : Rows → Bytes → Option ℕ
lookup [] l = none
lookup (row ∷ rows) l = if same_bytes row.0 l then some row.1 else lookup rows l

abbrev row_of : ℕ → Bytes → TinyUrl
row_of n l = record {
  long_url = l;
  short = n;
  expires_at = none;
  created_at = pos 0;
  deleted_at = none;
}

insert_reply : ℕ → Bytes → Rows → Option ℕ → Rows × Result TinyUrl
insert_reply n l w none = ((l, n) ∷ w, ok (row_of n l))
insert_reply n l w (some m) = (w, err duplicated_key)

take_reply : Bytes → Option ℕ → Result TinyUrl
take_reply l none = err record_not_found
take_reply l (some m) = ok (row_of m l)

abbrev table : Database Rows
table = record {
  create = λ n l e w. insert_reply n l w (lookup w l);
  take_short = λ n. raise record_not_found;
  take_long_url = λ l w. (w, take_reply l (lookup w l));
  delete_short = λ n. pure 0;
  delete_expired_before = λ t n. pure 0;
  sql_db = pure tt;
  ping = pure tt;
}

-- A cache that panics for a lifetime below 10 ns.
abbrev careful_if : Bool → Action Rows (Unit {0})
careful_if b = if b then panic else pure tt

abbrev careful : Duration → Action Rows (Unit {0})
careful t = careful_if (ltb_ℤ t (pos 10))

abbrev service_parts : Parts Rows
service_parts = record {
  ttl = pos 60000000000;
  db = table;
  cache = record {
    set = λ k v t. careful t;
    get = λ k. raise cache_miss;
    del = λ k. pure tt;
    ping = pure tt;
    close = pure tt;
  };
  now = λ w. (w, pos 1000);
  validate = λ l. ok tt;
  next = pure 656356768;
  close_sequence = λ w. w;
  inc_shorten_created = λ w. w;
  add_expired_reaped = λ n w. w;
}

same_bytes_refl : (l : Bytes) → same_bytes l l ≡ true
unfolding same_bytes
same_bytes_refl [] = refl
same_bytes_refl (c ∷ cs) = ground (arith, same_bytes_refl cs)

abbrev HasRow : Rows → Bytes → ℕ → Type 0
HasRow w l n = lookup w l ≡ some n

created_row :
    (n : ℕ) (l : Bytes) (w : Rows) (o : Option ℕ) (r : TinyUrl)
    → (insert_reply n l w o).1 ≡ ok r
    → HasRow (insert_reply n l w o).0 l n
unfolding insert_reply lookup
created_row n l w none r made = rw (same_bytes_refl l) refl
created_row n l w (some m) r made = absurd cc

refused_row :
    (n : ℕ) (l : Bytes) (w : Rows) (m : ℕ)
    → HasRow w l m
    → (insert_reply n l w (lookup w l)) ≡ (w, err duplicated_key)
unfolding insert_reply
refused_row n l w m row = ap (insert_reply n l w) row

duplicate : is_duplicated_key duplicated_key ≡ true
unfolding is_duplicated_key
duplicate = refl

found_row : (l : Bytes) (r : TinyUrl) (o : Option ℕ) → take_reply l o ≡ ok r → o ≡ some r.short
unfolding take_reply
found_row l r none h = absurd cc
found_row l r (some m) h = let same : row_of m l ≡ r = cc in ap (λ x. some x.short) same

taken_row : (l : Bytes) (m : ℕ) → take_reply l (some m) ≡ ok (row_of m l)
unfolding take_reply
taken_row l m = refl

indexed : IsIndexed table
indexed = record {
  Row = HasRow;
  created = λ n l e w r made. created_row n l w (lookup w l) r made;
  refused = λ n l e w m row.
      let same = refused_row n l w m row in
      (duplicated_key, ap (λ q. q.1) same, duplicate, subst (λ q. HasRow q.0 l m) (sym same) row);
  found = λ l w r h. found_row l r (lookup w l) h;
  taken = λ l w m row. (row_of m l, ap (take_reply l) row ∙ taken_row l m, refl);
}

abbrev url : Bytes
url = codes "http://a.b/c"

abbrev other_url : Bytes
other_url = codes "http://d.e"

abbrev made : ModelUrl
made = record {
  short_url = codes "211111";
  long_url = url;
  created_at = pos 0;
  deleted_at = none;
  expires_at = none;
}

created : (create service_parts url (pos 0) []).1 ≡ ok made
unfolding create remember clock expiry_of after_insert Storage.insert insert_reply lookup encode
    encode_loop Base58.reverse Base58.chars cache_ttl
created = refl
