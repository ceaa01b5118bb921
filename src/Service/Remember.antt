-- ===== src/Service/Remember.antt =====
-- Writing the entry of a registered link into the cache keeps the caches coherent.
use turl.Base.{ℕ, ◌≡◌, ◌⊎◌, inl, inr, sym, Option}
use mathlib.Core.Path.{subst}
use turl.Base58.{Bytes}
use turl.Expiry.{Instant, encode_cache_value, cache_ttl}
use turl.Action.{attempt}
use turl.Service.{Parts, clock, remember}
use turl.Cache.Contract.{View, IsWrite}
use turl.Service.Safety.{
  IsHonest, Names, IsEntry, IsCoherent, Keeps, keeps_pure, keeps_quiet, keeps_bind, keeps_tried,
}

module _ {W : Type 0} (view : View W) (s : Parts W) (honest : IsHonest view s) where
  open view use {Known, Cached}

  -- A cache write of the entry of a registered link, under a key that stands for it.
  write-IsCoherent :
      (k l : Bytes) (n : ℕ) (e : Option Instant) (w w' : W)
      → Names view k n
      → IsWrite view k (encode_cache_value l e) w w'
      → Known w n l e
      → IsCoherent view w
      → IsCoherent view w'
  write-IsCoherent k l n e w w' names write known c j x cached = go (write.cached j x cached)
    where
      go : Cached w j x ⊎ ((j ≡ k) × (x ≡ encode_cache_value l e)) → IsEntry view w' j x
      go (inl old) =
          let (m, l', e', names', known', value) = c j x old in
          (m, l', e', names', write.known m l' e' known', value)
      go (inr (key, value)) =
          (n, l, e, subst (λ i. Names view i n) (sym key) names, write.known n l e known, value)

  pub remember_keeps :
      (k l : Bytes) (n : ℕ) (e : Option Instant)
      → Names view k n
      → Keeps view (λ w. Known w n l e) (remember s k l e) (λ w u. Known w n l e)
  unfolding remember clock
  remember_keeps k l n e names =
      keeps_bind view _ (λ w t. Known w n l e) _ (clock s) _
        (keeps_quiet view _ _ _ honest.now (λ w a p q. (honest.now w).known n l e p))
        (λ now.
          keeps_bind view _ (λ w r. Known w n l e) _
            (attempt (s.cache.set k (encode_cache_value l e) (cache_ttl now s.ttl e))) _
            (keeps_tried view _ (λ w r. Unit {0}) _ (λ w. Known w n l e)
              (λ w c p.
                let write = honest.cache.set k (encode_cache_value l e) (cache_ttl now s.ttl e) w in
                (write-IsCoherent k l n e w _ names write p c, write.known n l e p)))
            (λ r. keeps_pure view _ _ tt (λ w p. p)))
