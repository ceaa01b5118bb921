-- ===== src/Tests/Fresh.antt =====
-- The proxy over two layers in memory, each a function from keys to values.
use turl.Base.{
  ◌≡◌, ◌≢◌, ◌⊎◌, inl, inr, refl, sym, ap, ◌∙◌, true, Bool-cases, Option, none, some, [], ◌∷◌,
  if◌then◌else◌, arith,
}
use turl.Base.Int.{pos}
use turl.Base58.{Bytes, codes}
use turl.Errors.{Result, ok, err, cache_miss, is_cache_miss}
use turl.Action.{pure}
use turl.Cache.{Interface, ProxyLayers, proxy_get, proxy_set, proxy_del, fill_local, after_local}
use turl.Cache.Contract.{View, IsCache}
use turl.Cache.Fresh.{lookups, IsLayered, proxy_del-proxy_get, proxy_set-proxy_get}
use turl.Tests.World.{same_bytes, same_bytes_sound}

same_bytes_refl : (l : Bytes) → same_bytes l l ≡ true
unfolding same_bytes
same_bytes_refl [] = refl
same_bytes_refl (c ∷ cs) = ground (arith, same_bytes_refl cs)

abbrev Entries : Type 0
Entries = Bytes → Option Bytes

record Memory : Type 0 where
  near : Entries
  far : Entries

abbrev put : Bytes → Option Bytes → Entries → Entries
put k v f j = if same_bytes k j then v else f j

abbrev missed : Option Bytes → Result Bytes
missed none = err cache_miss
missed (some v) = ok v

missed-ok : (o : Option Bytes) (v : Bytes) → missed o ≡ ok v → o ≡ some v
missed-ok none v h = absurd cc
missed-ok (some x) v h = let same : x ≡ v = cc in ap some same

put_self : (k : Bytes) (v : Option Bytes) (f : Entries) → put k v f k ≡ v
put_self k v f = rw (same_bytes_refl k) refl

put-some :
    (k v : Bytes) (f : Entries) (j x : Bytes)
    → put k (some v) f j ≡ some x
    → (f j ≡ some x) ⊎ ((j ≡ k) × (x ≡ v))
put-some k v f j x h = elim (Bool-cases (same_bytes k j)) [
  | inl is ↦
      let h' : some v ≡ some x = rw is at h in
      let same : v ≡ x = cc in inr (sym (same_bytes_sound k j is), sym same)
  | inr other ↦ inl (rw other at h)
]

put-none : (k : Bytes) (f : Entries) (j x : Bytes) → put k none f j ≡ some x → f j ≡ some x
put-none k f j x h = elim (Bool-cases (same_bytes k j)) [
  | inl is ↦ absurd (let h' : none ≡ some x = rw is at h in cc)
  | inr other ↦ rw other at h
]

abbrev near_cache : Interface Memory
near_cache = record {
  set = λ k v t w. (record w { near = put k (some v) w.near }, ok tt);
  get = λ k w. (w, missed (w.near k));
  del = λ k w. (record w { near = put k none w.near }, ok tt);
  ping = pure tt;
  close = pure tt;
}

abbrev far_cache : Interface Memory
far_cache = record {
  set = λ k v t w. (record w { far = put k (some v) w.far }, ok tt);
  get = λ k w. (w, missed (w.far k));
  del = λ k w. (record w { far = put k none w.far }, ok tt);
  ping = pure tt;
  close = pure tt;
}

abbrev view : View Memory
view = record {
  Known = λ w n l e. Unit {0};
  Cached = λ w k v. (w.near k ≡ some v) ⊎ (w.far k ≡ some v);
  time = λ w. pos 0;
}

near-IsCache : IsCache view near_cache
near-IsCache = record {
  get = λ k w. record { known = λ n l e h. h; cached = λ j x c. c; later = omega arith };
  get_ok = λ k v w h. inl (missed-ok (w.near k) v h);
  set = λ k v t w. record {
    known = λ n l e h. h;
    cached = λ j x c. elim c [
      | inl new ↦ elim (put-some k v w.near j x new) [ inl old ↦ inl (inl old) | inr is ↦ inr is ]
      | inr old ↦ inl (inr old)
    ];
    later = omega arith;
  };
  del = λ k w. record {
    known = λ n l e h. h;
    cached = λ j x c. elim c [ inl left ↦ inl (put-none k w.near j x left) | inr old ↦ inr old ];
    later = omega arith;
  };
}

far-IsCache : IsCache view far_cache
far-IsCache = record {
  get = λ k w. record { known = λ n l e h. h; cached = λ j x c. c; later = omega arith };
  get_ok = λ k v w h. inr (missed-ok (w.far k) v h);
  set = λ k v t w. record {
    known = λ n l e h. h;
    cached = λ j x c. elim c [
      | inl old ↦ inl (inl old)
      | inr new ↦ elim (put-some k v w.far j x new) [ inl old ↦ inl (inr old) | inr is ↦ inr is ]
    ];
    later = omega arith;
  };
  del = λ k w. record {
    known = λ n l e h. h;
    cached = λ j x c. elim c [ inl old ↦ inl old | inr left ↦ inr (put-none k w.far j x left) ];
    later = omega arith;
  };
}

abbrev layers : ProxyLayers Memory
layers = record {
  distributed_cache = far_cache;
  local_cache = near_cache;
  local_cache_ttl = pos 1000000000;
}

only_set : (k v : Bytes) (f : Entries) (x : Bytes) → put k (some v) f k ≡ some x → x ≡ v
only_set k v f x h =
    let both : some v ≡ some x = sym (put_self k (some v) f) ∙ h in
    let same : v ≡ x = cc in sym same

none_left : (k : Bytes) (f : Entries) (x : Bytes) → ¬ (put k none f k ≡ some x)
none_left k f x h = let both : none ≡ some x = sym (put_self k none f) ∙ h in absurd cc

layered : IsLayered view layers
layered = record {
  Near = λ w k v. w.near k ≡ some v;
  Far = λ w k v. w.far k ≡ some v;
  held = λ k v w c. c;
  set_near = λ k v t w x h. only_set k v w.near x;
  set_far = λ k v t w x h. only_set k v w.far x;
  set_apart = λ k v t w j x h. h;
  del_near = λ k w x h. none_left k w.near x;
  del_far = λ k w x h. none_left k w.far x;
  del_apart = λ k w j x h. h;
}

abbrev first_key : Bytes
first_key = codes "211111"

abbrev second_key : Bytes
second_key = codes "211112"

-- Both keys are in the distributed cache, and the first one also in the local one.
abbrev filled : Memory
filled = record {
  near = put first_key (some (codes "old")) (λ k. none);
  far = put first_key (some (codes "a")) (put second_key (some (codes "b")) (λ k. none));
}

proxy_del-proxy_get_example :
    (proxy_get layers first_key
      (lookups layers (second_key ∷ first_key ∷ []) (proxy_del layers first_key filled).0)).1
    ≢ ok (codes "old")
unfolding proxy_del
proxy_del-proxy_get_example =
    proxy_del-proxy_get view layers far-IsCache near-IsCache layered first_key
      (second_key ∷ first_key ∷ []) (codes "old") filled refl

abbrev value : Bytes
value = codes "new"

proxy_set-proxy_get_example : value ≡ codes "new"
unfolding proxy_set proxy_get lookups fill_local after_local same_bytes is_cache_miss
proxy_set-proxy_get_example =
    proxy_set-proxy_get view layers far-IsCache near-IsCache layered first_key (codes "new")
      (pos 60000000000) (second_key ∷ []) value filled refl refl
