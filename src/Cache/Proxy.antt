-- ===== src/Cache/Proxy.antt =====
-- pkg/cache: each cache, and the proxy over two of them, keeps the contract of a cache when what it
-- stands on does.
use turl.Base.{Bool, true, false, ◌≡◌, refl, ◌==◌, length, if◌then◌else◌}
use mathlib.Core.Path.{subst}
use turl.Base58.{Bytes}
use turl.Errors.{Error, Result, ok, err, panicked, is_cache_miss}
use turl.Expiry.{Duration}
use turl.Action.{Action, pure, raise, attempt, wrap, ◌>>=◌, ◌>>◌, continue}
use turl.Cache.{
  Interface, ProxyLayers, proxy_set, fill_local, after_local, proxy_get, proxy_del, proxy,
}
use turl.Cache.Contract.{
  View, IsQuiet, IsWrite, IsCache, quiet_trans, write-quiet, write_trans, quiet_write,
}

module _ {W : Type 0} (view : View W) where
  open view use {Cached}

  -- What a Get from `w` ends in: nothing new is cached, and the answer was cached.
  record IsReply (k : Bytes) (w : W) (r : W × Result Bytes) : Type 0 where
    quiet : IsQuiet view w r.0
    answer : (v : Bytes) → r.1 ≡ ok v → Cached w k v

  IsReply-error : (k : Bytes) (w w' : W) (e : Error) → IsQuiet view w w' → IsReply k w (w', err e)
  IsReply-error k w w' e q = record { quiet = q; answer = λ v h. absurd cc }

  IsReply-panic : (k : Bytes) (w w' : W) → IsQuiet view w w' → IsReply k w (w', panicked)
  IsReply-panic k w w' q = record { quiet = q; answer = λ v h. absurd cc }

  IsReply-ok : (k x : Bytes) (w w' : W) → IsQuiet view w w' → Cached w k x → IsReply k w (w', ok x)
  IsReply-ok k x w w' q c = record {
    quiet = q;
    answer = λ v h. let same : x ≡ v = cc in subst (Cached w k) same c;
  }

  IsReply-if :
      (k : Bytes) (w u : W) (b : Bool) (m n : Action W Bytes)
      → IsReply k w (m u)
      → IsReply k w (n u)
      → IsReply k w ((if b then m else n) u)
  IsReply-if k w u true m n hm hn = hm
  IsReply-if k w u false m n hm hn = hn

  -- A reply to a caller that was at `w` before.
  IsReply-before :
      (k : Bytes) (w u : W) (r : W × Result Bytes)
      → IsQuiet view w u
      → IsReply k u r
      → IsReply k w r
  IsReply-before k w u r q h = record {
    quiet = quiet_trans view w u r.0 q h.quiet;
    answer = λ v e. q.cached k v (h.answer v e);
  }

  get-IsReply : (c : Interface W) → IsCache view c → (k : Bytes) (w : W) → IsReply k w (c.get k w)
  get-IsReply c law k w = record { quiet = law.get k w; answer = λ v. law.get_ok k v w }

  module _ (p : ProxyLayers W) (remote : IsCache view p.distributed_cache)
      (near : IsCache view p.local_cache) where
    filled :
        (k x : Bytes) (w : W) (r : W × Result (Unit {0}))
        → Cached w k x
        → IsQuiet view w r.0
        → IsReply k w (continue (attempt (λ u. r) w) (λ u. pure x))
    filled k x w (u, ok t) c q = IsReply-ok k x w u q c
    filled k x w (u, err e) c q = IsReply-ok k x w u q c
    filled k x w (u, panicked) c q = IsReply-panic k w u q

    fill-IsReply :
        (k x : Bytes) (w u : W) → IsQuiet view w u → Cached w k x → IsReply k w (fill_local p k x u)
    unfolding fill_local
    fill-IsReply k x w u q c =
        IsReply-if k w u (length x == 0) (pure x)
          (do attempt (p.local_cache.set k x p.local_cache_ttl); pure x) (IsReply-ok k x w u q c)
          (filled k x w (p.local_cache.set k x p.local_cache_ttl u) c (
            write-quiet view k x w _ c (
              write_trans view k x w u _ (quiet_write view k x w u q)
                (near.set k x p.local_cache_ttl u))))

    after_remote :
        (k : Bytes) (w : W) (r : W × Result Bytes)
        → IsReply k w r
        → IsReply k w (continue r (fill_local p k))
    after_remote k w (u, ok x) h = fill-IsReply k x w u h.quiet (h.answer x refl)
    after_remote k w (u, err e) h = h
    after_remote k w (u, panicked) h = h

    after_local-IsReply :
        (k : Bytes) (w u : W) (r : Result Bytes)
        → IsReply k w (u, r)
        → IsReply k w (after_local p k r u)
    unfolding after_local
    after_local-IsReply k w u (ok x) h = h
    after_local-IsReply k w u (err e) h =
        IsReply-if k w u (is_cache_miss e)
          (do long ← p.distributed_cache.get k; fill_local p k long) (raise e)
          (after_remote k w (p.distributed_cache.get k u) (
            IsReply-before k w u (p.distributed_cache.get k u) h.quiet
              (get-IsReply p.distributed_cache remote k u)))
          (IsReply-error k w u e h.quiet)
    after_local-IsReply k w u panicked h = h

    tried_local :
        (k : Bytes) (w : W) (r : W × Result Bytes)
        → IsReply k w r
        → IsReply k w (continue (attempt (λ u. r) w) (after_local p k))
    unfolding after_local
    tried_local k w (u, ok x) h = h
    tried_local k w (u, err e) h = after_local-IsReply k w u (err e) h
    tried_local k w (u, panicked) h = h

    proxy_get-IsReply : (k : Bytes) (w : W) → IsReply k w (proxy_get p k w)
    unfolding proxy_get
    proxy_get-IsReply k w =
        tried_local k w (p.local_cache.get k w) (get-IsReply p.local_cache near k w)

    set_local :
        (k v : Bytes) (t : Duration) (w : W) (r : W × Result (Unit {0}))
        → IsWrite view k v w r.0
        → IsWrite view k v w
            (continue
              (wrap "failed to set distributed cache" (λ u. r) w)
              (λ u. wrap "failed to set local cache" (p.local_cache.set k v t))).0
    set_local k v t w (u, ok x) h =
        wrapped_write k v w w (p.local_cache.set k v t u)
          (write_trans view k v w u _ h (near.set k v t u))
      where
        wrapped_write :
            (k v : Bytes) (w w' : W) (r : W × Result (Unit {0}))
            → IsWrite view k v w r.0
            → IsWrite view k v w (wrap "failed to set local cache" (λ u. r) w').0
        wrapped_write k v w w' (u, ok x) h = h
        wrapped_write k v w w' (u, err e) h = h
        wrapped_write k v w w' (u, panicked) h = h
    set_local k v t w (u, err e) h = h
    set_local k v t w (u, panicked) h = h

    del_local :
        (k : Bytes) (w : W) (r : W × Result (Unit {0}))
        → IsQuiet view w r.0
        → IsQuiet view w
            (continue
              (wrap "failed to delete distributed cache" (λ u. r) w)
              (λ u. wrap "failed to delete local cache" (p.local_cache.del k))).0
    del_local k w (u, ok x) h =
        quiet_trans view w u _ h (wrapped_quiet u (p.local_cache.del k u) (near.del k u))
      where
        wrapped_quiet :
            (w : W) (r : W × Result (Unit {0}))
            → IsQuiet view w r.0
            → IsQuiet view w (wrap "failed to delete local cache" (λ u. r) w).0
        wrapped_quiet w (u, ok x) h = h
        wrapped_quiet w (u, err e) h = h
        wrapped_quiet w (u, panicked) h = h
    del_local k w (u, err e) h = h
    del_local k w (u, panicked) h = h

    -- If both layers keep the contract of a cache, so does the proxy: a Get that fills the local cache
    -- puts nothing there that the remote did not have, and Set and Del, even where the second layer
    -- fails after the first, add no value but the one that was to be set.
    pub proxy-IsCache : IsCache view (proxy p)
    unfolding proxy proxy_set proxy_del
    proxy-IsCache = record {
      get = λ k w. (proxy_get-IsReply k w).quiet;
      get_ok = λ k v w. (proxy_get-IsReply k w).answer v;
      set = λ k v t w. set_local k v t w (p.distributed_cache.set k v t w) (remote.set k v t w);
      del = λ k w. del_local k w (p.distributed_cache.del k w) (remote.del k w);
    }
