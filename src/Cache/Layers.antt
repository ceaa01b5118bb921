-- ===== src/Cache/Layers.antt =====
-- pkg/cache: the redis cache, the in-process cache and the counting decorator keep the contract of a cache
-- when the clients under them behave as documented.
use mathlib.Core.Path.{subst}
use turl.Base.{inl, inr, arith, sym, Bool-cases, ℕ, ◌≡◌, refl, Bool, true, false, ◌==◌}
use turl.Base58.{Bytes}
use turl.Errors.{Result, ok, err, panicked, is_cache_miss, is_redis_nil, is_entry_not_found}
use turl.Expiry.{Duration}
use turl.Action.{Action, attempt, continue}
use turl.Cache.{
  Interface, Redis, BigCache, Layer, Counter, tenth, jittered, redis_set, redis_get, redis_reply,
  redis_cache, local_get, local_reply, local_del, local_deleted, local_cache, counted,
  metrics_cache,
}
use turl.Cache.Contract.{View, IsQuiet, IsWrite, IsCache, quiet_refl, quiet_trans, quiet_write}

module _ {W : Type 0} (view : View W) where
  open view use {Cached}

  -- The redis commands, over any lifetimes and random numbers: what GET answers was set.
  pub record IsStore (r : Redis W) : Type 0 where
    pub set_ex : (k v : Bytes) (t : Duration) (w : W) → IsWrite view k v w (r.set_ex k v t w).0
    pub get : (k : Bytes) (w : W) → IsQuiet view w (r.get k w).0
    pub get_ok : (k v : Bytes) (w : W) → (r.get k w).1 ≡ ok v → Cached w k v
    pub del : (k : Bytes) (w : W) → IsQuiet view w (r.del k w).0
    pub int_n : (n : ℕ) (w : W) → IsQuiet view w (r.int_n n w).0

  -- bigcache
  pub record IsBigCache (b : BigCache W) : Type 0 where
    pub set : (k v : Bytes) (w : W) → IsWrite view k v w (b.set k v w).0
    pub get : (k : Bytes) (w : W) → IsQuiet view w (b.get k w).0
    pub get_ok : (k v : Bytes) (w : W) → (b.get k w).1 ≡ ok v → Cached w k v
    pub delete : (k : Bytes) (w : W) → IsQuiet view w (b.delete k w).0

  -- A write after something that writes nothing.
  after_quiet :
      (k v : Bytes) (u w w' : W) → IsQuiet view u w → IsWrite view k v w w' → IsWrite view k v u w'
  after_quiet k v u w w' q p = record {
    known = λ n l e h. p.known n l e (q.known n l e h);
    cached =
        λ j x c. elim (p.cached j x c) [ inl old ↦ inl (q.cached j x old) | inr new ↦ inr new ];
    later = omega (arith, p.later, q.later);
  }

  jitter_write :
      (r : Redis W) (k v : Bytes) (t : Duration) (w : W) (j : W × Result ℕ)
      → IsStore r
      → IsQuiet view w j.0
      → IsWrite view k v w (continue j (λ n. r.set_ex k v (jittered t n))).0
  jitter_write r k v t w (u, ok n) s q = after_quiet k v w u _ q (s.set_ex k v (jittered t n) u)
  jitter_write r k v t w (u, err e) s q = quiet_write view k v w u q
  jitter_write r k v t w (u, panicked) s q = quiet_write view k v w u q

  redis_set-IsWrite :
      (r : Redis W)
      → IsStore r
      → (k v : Bytes) (t : Duration) (w : W) → IsWrite view k v w (redis_set r k v t w).0
  unfolding redis_set
  redis_set-IsWrite r s k v t w = elim (Bool-cases (tenth t == 0)) [
    | inl none ↦ rw none (quiet_write view k v w w (quiet_refl view w))
    | inr some ↦ rw some (jitter_write r k v t w (r.int_n (tenth t) w) s (s.int_n (tenth t) w))
  ]

  -- A reply that is passed on, with a missing entry as ErrCacheMiss.
  abbrev Passes : (Result Bytes → Action W Bytes) → Type 0
  Passes f =
      (r : Result Bytes) (w : W) → ((f r w).0 ≡ w) × ((v : Bytes) → (f r w).1 ≡ ok v → r ≡ ok v)

  redis_reply-Passes : (c : Redis W) → Passes (redis_reply c)
  unfolding redis_reply
  redis_reply-Passes c (ok x) w = (refl, λ v h. h)
  redis_reply-Passes c (err e) w = elim (Bool-cases (is_redis_nil e)) [
    | inl gone ↦ rw gone (refl, λ v h. absurd cc)
    | inr other ↦ rw other (refl, λ v h. absurd cc)
  ]
  redis_reply-Passes c panicked w = (refl, λ v h. absurd cc)

  local_reply-Passes : (c : BigCache W) → Passes (local_reply c)
  unfolding local_reply
  local_reply-Passes c (ok x) w = (refl, λ v h. h)
  local_reply-Passes c (err e) w = elim (Bool-cases (is_entry_not_found e)) [
    | inl gone ↦ rw gone (refl, λ v h. absurd cc)
    | inr other ↦ rw other (refl, λ v h. absurd cc)
  ]
  local_reply-Passes c panicked w = (refl, λ v h. absurd cc)

  passed :
      (f : Result Bytes → Action W Bytes) (m : W × Result Bytes)
      → Passes f
      → ((continue (attempt (λ u. m) m.0) f).0 ≡ m.0)
        × ((v : Bytes) → (continue (attempt (λ u. m) m.0) f).1 ≡ ok v → m.1 ≡ ok v)
  passed f (w, ok x) p = p (ok x) w
  passed f (w, err e) p = p (err e) w
  passed f (w, panicked) p = (refl, λ v h. absurd cc)

  pub redis-IsCache : (r : Redis W) → IsStore r → IsCache view (redis_cache r)
  unfolding redis_cache redis_get
  redis-IsCache r s = record {
    get = λ k w.
        subst (IsQuiet view w) (sym (passed (redis_reply r) (r.get k w) (redis_reply-Passes r)).0)
          (s.get k w);
    get_ok = λ k v w h.
        s.get_ok k v w ((passed (redis_reply r) (r.get k w) (redis_reply-Passes r)).1 v h);
    set = redis_set-IsWrite r s;
    del = s.del;
  }

  deleted_lem :
      (c : BigCache W) (m : W × Result (Unit {0}))
      → (continue (attempt (λ u. m) m.0) (local_deleted c)).0 ≡ m.0
  unfolding local_deleted
  deleted_lem c (w, ok u) = refl
  deleted_lem c (w, err e) = elim (Bool-cases (is_entry_not_found e)) [
    | inl gone ↦ rw gone refl
    | inr other ↦ rw other refl
  ]
  deleted_lem c (w, panicked) = refl

  pub local-IsCache : (b : BigCache W) → IsBigCache b → IsCache view (local_cache b)
  unfolding local_cache local_get local_del
  local-IsCache b s = record {
    get = λ k w.
        subst (IsQuiet view w) (sym (passed (local_reply b) (b.get k w) (local_reply-Passes b)).0)
          (s.get k w);
    get_ok = λ k v w h.
        s.get_ok k v w ((passed (local_reply b) (b.get k w) (local_reply-Passes b)).1 v h);
    set = λ k v t w. s.set k v w;
    del = λ k w. subst (IsQuiet view w) (sym (deleted_lem b (b.delete k w))) (s.delete k w);
  }

  module _ (count : Counter W)
      (quiet : (l : Layer) (hit : Bool) (w : W) → IsQuiet view w (count l hit w)) where
    counted-IsQuiet :
        (layer : Layer) (c : Interface W) (w : W) (r : W × Result Bytes)
        → IsQuiet view w r.0
        → IsQuiet view w (counted count layer c r).0
    unfolding counted
    counted-IsQuiet layer c w (u, ok v) q = quiet_trans view w u _ q (quiet layer true u)
    counted-IsQuiet layer c w (u, err e) q = elim (Bool-cases (is_cache_miss e)) [
      | inl miss ↦ rw miss (quiet_trans view w u _ q (quiet layer false u))
      | inr other ↦ rw other q
    ]
    counted-IsQuiet layer c w (u, panicked) q = q

    counted_answer :
        (layer : Layer) (c : Interface W) (r : W × Result Bytes) (v : Bytes)
        → (counted count layer c r).1 ≡ ok v
        → r.1 ≡ ok v
    unfolding counted
    counted_answer layer c (u, ok x) v h = h
    counted_answer layer c (u, err e) v h = elim (Bool-cases (is_cache_miss e)) [
      | inl miss ↦ let h' : err e ≡ ok v = rw miss at h in absurd cc
      | inr other ↦ let h' : err e ≡ ok v = rw other at h in absurd cc
    ]
    counted_answer layer c (u, panicked) v h = absurd cc

    pub metrics-IsCache :
        (layer : Layer) (c : Interface W)
        → IsCache view c
        → IsCache view (metrics_cache count layer c)
    unfolding metrics_cache
    metrics-IsCache layer c law = record {
      get = λ k w. counted-IsQuiet layer c w (c.get k w) (law.get k w);
      get_ok = λ k v w h. law.get_ok k v w (counted_answer layer c (c.get k w) v h);
      set = law.set;
      del = law.del;
    }
