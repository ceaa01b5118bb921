-- ===== src/Tests/World.antt =====
-- A world in memory: the rows of the database, the numbers that were deleted, the entries of one cache
-- and the next number of the sequence. The clock stands still.
use turl.Base.{
  ℕ, ◌+◌, Bool, true, false, Option, none, some, List, [], ◌∷◌, ◌≡◌, ◌⊎◌, inl, inr, refl, sym, ◌∙◌,
  ◌==◌, ==_iff, if◌then◌else◌, Bool-cases, ap, arith,
}
use turl.Base.Int.{pos}
use mathlib.Core.Path.{subst}
use turl.Base58.{Bytes}
use turl.Errors.{Result, ok, err, record_not_found, cache_miss}
use turl.Expiry.{Instant}
use turl.Action.{pure}
use turl.Cache.{Interface}
use turl.Cache.Contract.{View, IsCache, quiet_refl}
use turl.Storage.{TinyUrl, Database}
use turl.Service.{Parts}
use turl.Service.Safety.{IsDatabase, IsHonest, IsCoherent}

pub record World : Type 0 where
  pub links : List TinyUrl
  pub deleted : List ℕ
  pub cached : List (Bytes × Bytes)
  pub count : ℕ

module _ {A : Type 0} where
  abbrev pub Listed : A → List A → Type 0
  Listed x [] = ⊥
  Listed x (y ∷ ys) = (x ≡ y) ⊎ Listed x ys

  -- The first element that passes a test.
  unfoldable pub first : (A → Bool) → List A → Option A
  first p [] = none
  first p (x ∷ xs) = if p x then some x else first p xs

  first-Listed :
      (p : A → Bool) (xs : List A) (x : A) → first p xs ≡ some x → (p x ≡ true) × Listed x xs
  unfolding first
  first-Listed p [] x e = absurd cc
  first-Listed p (y ∷ ys) x e = elim (Bool-cases (p y)) [
    | inl good ↦
        let e' : some y ≡ some x = rw good at e in
        let same : y ≡ x = cc in (ap p (sym same) ∙ good, inl (sym same))
    | inr bad ↦ let rest = first-Listed p ys x (rw bad at e) in (rest.0, inr rest.1)
  ]

  unfoldable pub remove : (A → Bool) → List A → List A
  remove p [] = []
  remove p (x ∷ xs) = if p x then remove p xs else x ∷ remove p xs

  remove-Listed : (p : A → Bool) (xs : List A) (x : A) → Listed x (remove p xs) → Listed x xs
  unfolding remove
  remove-Listed p [] x h = h
  remove-Listed p (y ∷ ys) x h = elim (Bool-cases (p y)) [
    | inl good ↦ inr (remove-Listed p ys x (rw good at h))
    | inr bad ↦
        let h' : (x ≡ y) ⊎ Listed x (remove p ys) = rw bad at h in
        elim h' [ inl e ↦ inl e | inr r ↦ inr (remove-Listed p ys x r) ]
  ]

unfoldable pub same_bytes : Bytes → Bytes → Bool
same_bytes [] [] = true
same_bytes (a ∷ xs) (b ∷ ys) = if a == b then same_bytes xs ys else false
same_bytes _ _ = false

pub same_bytes_sound : (a b : Bytes) → same_bytes a b ≡ true → a ≡ b
unfolding same_bytes
same_bytes_sound [] [] e = refl
same_bytes_sound [] (b ∷ ys) e = absurd cc
same_bytes_sound (a ∷ xs) [] e = absurd cc
same_bytes_sound (a ∷ xs) (b ∷ ys) e = elim (Bool-cases (a == b)) [
  | inl good ↦ cc ((==_iff a b).0 good, same_bytes_sound xs ys (rw good at e))
  | inr bad ↦ absurd ((let no : false ≡ true = rw bad at e in cc))
]

unfoldable pub not_found : {A : Type 0} → Option A → Result A
not_found none = err record_not_found
not_found (some a) = ok a

unfoldable pub missed : Option (Bytes × Bytes) → Result Bytes
missed none = err cache_miss
missed (some (k, v)) = ok v

unfoldable pub mem : ℕ → List ℕ → Bool
mem n [] = false
mem n (m ∷ ms) = if n == m then true else mem n ms

-- The rows that are not deleted.
unfoldable pub alive : List ℕ → ℕ → TinyUrl → Bool
alive dead n r = if r.short == n then (if mem n dead then false else true) else false

unfoldable pub database : Database World
unfolding first same_bytes not_found alive mem
database = record {
  create = λ n l e w.
      let row : TinyUrl = record {
        long_url = l;
        short = n;
        expires_at = e;
        created_at = pos 0;
        deleted_at = none;
      } in
      (record w { links = row ∷ w.links }, ok row);
  take_short = λ n w. (w, not_found (first (alive w.deleted n) w.links));
  take_long_url = λ l w. (w, not_found (first (λ r. same_bytes r.long_url l) w.links));
  delete_short = λ n w. (record w { deleted = n ∷ w.deleted }, ok 1);
  delete_expired_before = λ t n w. (w, ok 0);
  sql_db = pure tt;
  ping = pure tt;
}

unfoldable pub memory : Interface World
unfolding first remove same_bytes missed
memory = record {
  set = λ k v t w. (record w { cached = (k, v) ∷ w.cached }, ok tt);
  get = λ k w. (w, missed (first (λ e. same_bytes e.0 k) w.cached));
  del = λ k w. (record w { cached = remove (λ e. same_bytes e.0 k) w.cached }, ok tt);
  ping = pure tt;
  close = pure tt;
}

unfoldable pub parts : Parts World
unfolding database memory
parts = record {
  ttl = pos 60000000000;
  db = database;
  cache = memory;
  now = λ w. (w, pos 1000);
  validate = λ l. ok tt;
  next = λ w. (record w { count = w.count + 1 }, ok w.count);
  close_sequence = λ w. w;
  inc_shorten_created = λ w. w;
  add_expired_reaped = λ n w. w;
}

abbrev pub view : View World
view = record {
  Known = λ w n l e.
      (r : TinyUrl) × (r.short ≡ n) × (r.long_url ≡ l) × (r.expires_at ≡ e) × Listed r w.links;
  Cached = λ w k v. Listed (k, v) w.cached;
  time = λ w. pos 1000;
}

hit :
    (k v : Bytes) (es : List (Bytes × Bytes))
    → missed (first (λ e. same_bytes e.0 k) es) ≡ ok v
    → Listed (k, v) es
unfolding missed
hit k v es e = go (first (λ e. same_bytes e.0 k) es) refl e
  where
    go :
        (o : Option (Bytes × Bytes))
        → first (λ e. same_bytes e.0 k) es ≡ o
        → missed o ≡ ok v
        → Listed (k, v) es
    go none is e = absurd cc
    go (some (j, x)) is e =
        let found = first-Listed (λ e. same_bytes e.0 k) es (j, x) is in
        let key : j ≡ k = same_bytes_sound j k found.0 in
        let value : x ≡ v = cc in
        subst (λ i. Listed (i, v) es) key (subst (λ y. Listed (j, y) es) value found.1)

pub memory-IsCache : IsCache view memory
unfolding memory missed
memory-IsCache = record {
  get = λ k w. quiet_refl view w;
  get_ok = λ k v w e. hit k v w.cached e;
  set = λ k v t w. record {
    known = λ n l e h. h;
    cached = λ j x c. elim c [
      | inl same ↦ inr (ap (λ p. p.0) same, ap (λ p. p.1) same)
      | inr old ↦ inl old
    ];
    later = omega arith;
  };
  del = λ k w. record {
    known = λ n l e h. h;
    cached = λ j x c. remove-Listed (λ e. same_bytes e.0 k) w.cached (j, x) c;
    later = omega arith;
  };
}

expiry_of_result : Result TinyUrl → Option Instant
expiry_of_result (ok r) = r.expires_at
expiry_of_result _ = none

taken :
    (p : TinyUrl → Bool) (w : World) (r : TinyUrl)
    → not_found (first p w.links) ≡ ok r
    → (p r ≡ true) × Listed r w.links
unfolding not_found
taken p w r h = go (first p w.links) refl h
  where
    go :
        (o : Option TinyUrl)
        → first p w.links ≡ o
        → not_found o ≡ ok r
        → (p r ≡ true) × Listed r w.links
    go none is e = absurd cc
    go (some x) is e = let same : x ≡ r = cc in first-Listed p w.links r (is ∙ ap some same)

alive_number : (dead : List ℕ) (n : ℕ) (r : TinyUrl) → alive dead n r ≡ true → r.short ≡ n
unfolding alive
alive_number dead n r h = ground arith

pub database-IsDatabase : IsDatabase view database
unfolding database expiry_of_result
database-IsDatabase = record {
  create = λ n l e w. record {
    known = λ m k x (r, a, b, c, h). (r, a, b, c, inr h);
    cached = λ k v c. c;
    later = omega arith;
  };
  create_ok = λ n l e w r h. (_, refl, refl, ap expiry_of_result h, inl refl);
  take_short = λ n w. quiet_refl view w;
  take_short_ok = λ n w r h.
      let t = taken (alive w.deleted n) w r h in
      (r, alive_number w.deleted n r t.0, refl, refl, t.1);
  take_long_url = λ l w. quiet_refl view w;
  take_long_url_ok = λ l w r h.
      let t = taken (λ r. same_bytes r.long_url l) w r h in
      (r, refl, same_bytes_sound r.long_url l t.0, refl, t.1);
  delete_short = λ n w. record { known = λ n l e k. k; cached = λ k v c. c; later = omega arith };
  delete_expired_before = λ t n w. quiet_refl view w;
}

pub honest : IsHonest view parts
unfolding parts
honest = record {
  now = λ w. quiet_refl view w;
  now_time = λ w. omega arith;
  next = λ w. record { known = λ n l e k. k; cached = λ k v c. c; later = omega arith };
  inc_shorten_created = λ w. quiet_refl view w;
  add_expired_reaped = λ n w. quiet_refl view w;
  db = database-IsDatabase;
  cache = memory-IsCache;
}

abbrev pub start : World
start = record { links = []; deleted = []; cached = []; count = 656356768 }

pub start-IsCoherent : IsCoherent view start
start-IsCoherent k v c = absurd c
