-- ===== src/Cache/Fresh.antt =====
-- pkg/cache/proxy_cache.go: what the proxy answers for a key after Del and after Set, where each layer
-- forgets what it is told to forget.
use turl.Base.{◌≡◌, ◌≢◌, ◌⊎◌, inl, inr, refl, List, [], ◌∷◌}
use turl.Base58.{Bytes}
use turl.Errors.{Result, ok, err, panicked}
use turl.Expiry.{Duration}
use turl.Action.{wrap, continue}
use turl.Cache.{ProxyLayers, proxy_get, proxy_set, proxy_del, proxy}
use turl.Cache.Contract.{View, IsCache}
use turl.Cache.Proxy.{proxy-IsCache}

-- A run of Gets of the proxy, one after the other.
unfoldable pub lookups : {W : Type 0} → ProxyLayers W → List Bytes → W → W
lookups p [] w = w
lookups p (k ∷ keys) w = lookups p keys (proxy_get p k w).0

module _ {W : Type 0} (view : View W) where
  open view use {Cached}

  -- What is cached is in one of the layers. A Set or a Del of a layer that succeeds leaves no other value
  -- of its key there, and the calls of the local cache put nothing into the distributed one.
  pub record IsLayered (p : ProxyLayers W) : Type 1 where
    pub Near : W → Bytes → Bytes → Type 0
    pub Far : W → Bytes → Bytes → Type 0
    pub held : (k v : Bytes) (w : W) → Cached w k v → Near w k v ⊎ Far w k v
    pub set_near :
        (k v : Bytes) (t : Duration) (w : W) (x : Bytes)
        → (p.local_cache.set k v t w).1 ≡ ok tt
        → Near (p.local_cache.set k v t w).0 k x
        → x ≡ v
    pub set_far :
        (k v : Bytes) (t : Duration) (w : W) (x : Bytes)
        → (p.distributed_cache.set k v t w).1 ≡ ok tt
        → Far (p.distributed_cache.set k v t w).0 k x
        → x ≡ v
    pub set_apart :
        (k v : Bytes) (t : Duration) (w : W) (j x : Bytes)
        → Far (p.local_cache.set k v t w).0 j x
        → Far w j x
    pub del_near :
        (k : Bytes) (w : W) (x : Bytes)
        → (p.local_cache.del k w).1 ≡ ok tt
        → ¬ Near (p.local_cache.del k w).0 k x
    pub del_far :
        (k : Bytes) (w : W) (x : Bytes)
        → (p.distributed_cache.del k w).1 ≡ ok tt
        → ¬ Far (p.distributed_cache.del k w).0 k x
    pub del_apart :
        (k : Bytes) (w : W) (j x : Bytes) → Far (p.local_cache.del k w).0 j x → Far w j x

  module _ (p : ProxyLayers W) (remote : IsCache view p.distributed_cache)
      (near : IsCache view p.local_cache) (layered : IsLayered p) where
    open layered use {Near, Far}

    got : (j k x : Bytes) (w : W) → Cached (proxy_get p j w).0 k x → Cached w k x
    unfolding proxy
    got j k x w c = ((proxy-IsCache view p remote near).get j w).cached k x c

    after_lookups :
        (keys : List Bytes) (k x : Bytes) (w : W) → Cached (lookups p keys w) k x → Cached w k x
    unfolding lookups
    after_lookups [] k x w c = c
    after_lookups (j ∷ keys) k x w c = got j k x w (after_lookups keys k x (proxy_get p j w).0 c)

    answered :
        (keys : List Bytes) (k v : Bytes) (w : W)
        → (proxy_get p k (lookups p keys w)).1 ≡ ok v
        → Cached w k v
    unfolding proxy
    answered keys k v w h =
        after_lookups keys k v w
          ((proxy-IsCache view p remote near).get_ok k v (lookups p keys w) h)

    -- Each layer's call, behind the text that its error is given.
    near_deleted :
        (k : Bytes) (u : W) (r : W × Result (Unit {0}))
        → ((x : Bytes) → r.1 ≡ ok tt → ¬ Near r.0 k x)
        → ((x : Bytes) → ¬ Far r.0 k x)
        → (wrap "failed to delete local cache" (λ v. r) u).1 ≡ ok tt
        → (x : Bytes)
        → ¬ (
            Near (wrap "failed to delete local cache" (λ v. r) u).0 k x
            ⊎ Far (wrap "failed to delete local cache" (λ v. r) u).0 k x)
    near_deleted k u (w, ok t) none_near none_far h x (inl n) = none_near x refl n
    near_deleted k u (w, ok t) none_near none_far h x (inr f) = none_far x f
    near_deleted k u (w, err e) none_near none_far h x held = absurd cc
    near_deleted k u (w, panicked) none_near none_far h x held = absurd cc

    deleted :
        (k : Bytes) (u : W) (r : W × Result (Unit {0}))
        → ((x : Bytes) → r.1 ≡ ok tt → ¬ Far r.0 k x)
        → let whole =
            continue
              (wrap "failed to delete distributed cache" (λ v. r) u)
              (λ t. wrap "failed to delete local cache" (p.local_cache.del k)) in
          whole.1 ≡ ok tt → (x : Bytes) → ¬ (Near whole.0 k x ⊎ Far whole.0 k x)
    deleted k u (w, ok t) none_far h =
        near_deleted k w (p.local_cache.del k w) (λ x. layered.del_near k w x)
          (λ x f. none_far x refl (layered.del_apart k w k x f)) h
    deleted k u (w, err e) none_far h = absurd cc
    deleted k u (w, panicked) none_far h = absurd cc

    near_set :
        (k v : Bytes) (u : W) (r : W × Result (Unit {0}))
        → ((x : Bytes) → r.1 ≡ ok tt → Near r.0 k x → x ≡ v)
        → ((x : Bytes) → Far r.0 k x → x ≡ v)
        → (wrap "failed to set local cache" (λ u'. r) u).1 ≡ ok tt
        → (x : Bytes)
        → Near (wrap "failed to set local cache" (λ u'. r) u).0 k x
          ⊎ Far (wrap "failed to set local cache" (λ u'. r) u).0 k x
        → x ≡ v
    near_set k v u (w, ok t) is_near is_far h x (inl n) = is_near x refl n
    near_set k v u (w, ok t) is_near is_far h x (inr f) = is_far x f
    near_set k v u (w, err e) is_near is_far h x held = absurd cc
    near_set k v u (w, panicked) is_near is_far h x held = absurd cc

    was_set :
        (k v : Bytes) (ttl : Duration) (u : W) (r : W × Result (Unit {0}))
        → ((x : Bytes) → r.1 ≡ ok tt → Far r.0 k x → x ≡ v)
        → let whole =
            continue
              (wrap "failed to set distributed cache" (λ u'. r) u)
              (λ t. wrap "failed to set local cache" (p.local_cache.set k v ttl)) in
          whole.1 ≡ ok tt → (x : Bytes) → Near whole.0 k x ⊎ Far whole.0 k x → x ≡ v
    was_set k v ttl u (w, ok t) is_far h =
        near_set k v w (p.local_cache.set k v ttl w) (λ x. layered.set_near k v ttl w x)
          (λ x f. is_far x refl (layered.set_apart k v ttl w k x f)) h
    was_set k v ttl u (w, err e) is_far h = absurd cc
    was_set k v ttl u (w, panicked) is_far h = absurd cc

    -- After a Del of a key that succeeds, whatever Gets of any keys follow, a Get of the key answers no
    -- value: neither layer has one, and no Get brings one back. The layers keep the contract of a cache,
    -- and each forgets a key that it deletes.
    pub proxy_del-proxy_get :
        (k : Bytes) (keys : List Bytes) (v : Bytes) (w : W)
        → (proxy_del p k w).1 ≡ ok tt
        → (proxy_get p k (lookups p keys (proxy_del p k w).0)).1 ≢ ok v
    unfolding proxy_del
    proxy_del-proxy_get k keys v w h is =
        let whole : W × Result (Unit {0}) = proxy_del p k w in
        deleted k w (p.distributed_cache.del k w) (λ x. layered.del_far k w x) h v
          (layered.held k v whole.0 (answered keys k v whole.0 is))

    -- After a Set of a key that succeeds, whatever Gets of any keys follow, the value that a Get of the
    -- key answers is the one that was set, and no older one from either layer. The layers keep the
    -- contract of a cache, and each forgets the older values of a key that it sets.
    pub proxy_set-proxy_get :
        (k v : Bytes) (ttl : Duration) (keys : List Bytes) (x : Bytes) (w : W)
        → (proxy_set p k v ttl w).1 ≡ ok tt
        → (proxy_get p k (lookups p keys (proxy_set p k v ttl w).0)).1 ≡ ok x
        → x ≡ v
    unfolding proxy_set
    proxy_set-proxy_get k v ttl keys x w h is =
        let whole : W × Result (Unit {0}) = proxy_set p k v ttl w in
        was_set k v ttl w (p.distributed_cache.set k v ttl w) (λ y. layered.set_far k v ttl w y) h x
          (layered.held k x whole.0 (answered keys k x whole.0 is))
