-- ===== src/Cache/Accounts.antt =====
-- The counts of the two layers of a proxy, as newProxy of pkg/cache/proxy.go builds it.
use turl.Base.{
  ℕ, suc, ◌+◌, ◌≤◌, ◌≡◌, ◌≢◌, inl, inr, refl, Bool, true, false, Bool-cases, arith, List, [], ◌∷◌,
  length, ◌==◌, if◌then◌else◌,
}
use turl.Base58.{Bytes}
use turl.Errors.{Result, ok, err, panicked, is_cache_miss}
use turl.Expiry.{Duration}
use turl.Action.{caught, continue, pure}
use turl.Cache.{
  Interface, Layer, local, distributed, counted, metrics_cache, ProxyLayers, proxy, proxy_get,
  after_local, fill_local,
}
use turl.Cache.Build.{CachePackages, layered}

-- The hits of both layers, the misses of the local one, and the lookups of the distributed one.
pub record Account : Type 0 where
  pub hits : ℕ
  pub local_misses : ℕ
  pub remote : ℕ

abbrev pub entry : Layer → Bool → Account → Account
entry local true a = record a { hits = suc a.hits }
entry local false a = record a { local_misses = suc a.local_misses }
entry distributed true a = record a { hits = suc a.hits; remote = suc a.remote }
entry distributed false a = record a { remote = suc a.remote }

-- Keys looked up one after the other, with the replies.
unfoldable pub lookups : {W : Type 0} → Interface W → List Bytes → W → W × List (Result Bytes)
lookups c [] w = (w, [])
lookups c (k ∷ ks) w =
    let (w', reply) = c.get k w in let (end, replies) = lookups c ks w' in (end, reply ∷ replies)

-- How many lookups were answered.
abbrev pub answered : Result Bytes → ℕ
answered (ok v) = 1
answered (err e) = 0
answered panicked = 0

abbrev pub answers : List (Result Bytes) → ℕ
answers [] = 0
answers (r ∷ rs) = answered r + answers rs

module _ {W : Type 0} (account : W → Account) where
  -- A Get changes the account only by the counters around it.
  pub record Keeps (c : Interface W) : Type 0 where
    pub get : (k : Bytes) (w : W) → account (c.get k w).0 ≡ account w

  -- The layer that is filled: a Set does not change the account and does not panic.
  pub record Fills (c : Interface W) : Type 0 where
    pub set :
        (k v : Bytes) (ttl : Duration) (w : W)
        → (account (c.set k v ttl w).0 ≡ account w) × ((c.set k v ttl w).1 ≢ panicked)

  -- A lookup that ends so is in the account.
  record Booked (w : W) (n : ℕ) (end : W) : Type 0 where
    hits : (account end).hits ≡ (account w).hits + n
    reached :
        (account end).remote + (account w).local_misses
        ≤ (account w).remote + (account end).local_misses

  module _ (p : CachePackages W)
      (counts : (l : Layer) (hit : Bool) (w : W)
        → account (p.count l hit w) ≡ entry l hit (account w)) where
    Booked-still : (w u : W) → account u ≡ account w → Booked w 0 u
    Booked-still w u e = record { hits = rw e (omega arith); reached = rw e (omega arith) }

    Booked-hit : (w u : W) → account u ≡ account w → Booked w 1 (p.count local true u)
    Booked-hit w u e = record {
      hits = rw (counts local true u, e) (omega arith);
      reached = rw (counts local true u, e) (omega arith);
    }

    -- After a miss of the local layer.
    record IsMissed (w v : W) : Type 0 where
      hits : (account v).hits ≡ (account w).hits
      local_misses : (account v).local_misses ≡ suc (account w).local_misses
      remote : (account v).remote ≡ (account w).remote

    miss-IsMissed : (w u : W) → account u ≡ account w → IsMissed w (p.count local false u)
    miss-IsMissed w u e = record {
      hits = rw (counts local false u, e) refl;
      local_misses = rw (counts local false u, e) refl;
      remote = rw (counts local false u, e) refl;
    }

    Booked-remote :
        (w v u : W) (hit : Bool) (n : ℕ)
        → IsMissed w v
        → account u ≡ account v
        → n ≡ (if hit then 1 else 0)
        → Booked w n (p.count distributed hit u)
    Booked-remote w v u true n m e h = record {
      hits = rw (counts distributed true u, e) (omega (arith, m, h));
      reached = rw (counts distributed true u, e) (omega (arith, m));
    }
    Booked-remote w v u false n m e h = record {
      hits = rw (counts distributed false u, e) (omega (arith, m, h));
      reached = rw (counts distributed false u, e) (omega (arith, m));
    }

    Booked-lost : (w v u : W) → IsMissed w v → account u ≡ account v → Booked w 0 u
    Booked-lost w v u m e = record {
      hits = rw e (omega (arith, m));
      reached = rw e (omega (arith, m));
    }

    Booked-later : (w v u : W) (n : ℕ) → Booked w n v → account u ≡ account v → Booked w n u
    Booked-later w v u n b e = record { hits = rw e b.hits; reached = rw e b.reached }

    module _ (ttl : Duration) (remote lower : Interface W) (remote_keeps : Keeps remote)
        (lower_keeps : Keeps lower) (lower_fills : Fills lower) where
      -- The layers that newProxy puts under its proxy.
      abbrev layers : ProxyLayers W
      layers = record {
        distributed_cache = metrics_cache p.count distributed remote;
        local_cache = metrics_cache p.count local lower;
        local_cache_ttl = ttl;
      }

      -- Of a reply, what it puts in the account.
      abbrev Ends : W → W × Result Bytes → Type 0
      Ends w r = Booked w (answered r.1) r.0

      set-Booked :
          (w : W) (v : Bytes) (r : W × Result (Unit {0}))
          → Booked w 1 r.0
          → r.1 ≢ panicked
          → Ends w (continue (caught r) (λ reply. pure v))
      set-Booked w v (u, ok a) b calm = b
      set-Booked w v (u, err e) b calm = b
      set-Booked w v (u, panicked) b calm = absurd (calm refl)

      fill-Booked : (w u : W) (k v : Bytes) → Booked w 1 u → Ends w (fill_local layers k v u)
      unfolding fill_local metrics_cache
      fill-Booked w u k v b = elim (Bool-cases (length v == 0)) [
        | inl e ↦ rw e b
        | inr e ↦
            let kept = lower_fills.set k v ttl u in
            rw e (set-Booked w v (lower.set k v ttl u) (Booked-later w u _ 1 b kept.0) kept.1)
      ]

      remote_booked :
          (w v : W) (k : Bytes) (r : W × Result Bytes)
          → IsMissed w v
          → account r.0 ≡ account v
          → Ends w (continue (counted p.count distributed remote r) (fill_local layers k))
      unfolding counted
      remote_booked w v k (u, ok long) m e =
          fill-Booked w _ k long (Booked-remote w v u true 1 m e refl)
      remote_booked w v k (u, err er) m e = elim (Bool-cases (is_cache_miss er)) [
        | inl c ↦ rw c (Booked-remote w v u false 0 m e refl)
        | inr c ↦ rw c (Booked-lost w v u m e)
      ]
      remote_booked w v k (u, panicked) m e = Booked-lost w v u m e

      local_booked :
          (w : W) (k : Bytes) (r : W × Result Bytes)
          → account r.0 ≡ account w
          → Ends w (continue (caught (counted p.count local lower r)) (after_local layers k))
      unfolding counted after_local metrics_cache
      local_booked w k (u, ok long) e = Booked-hit w u e
      local_booked w k (u, err er) e = elim (Bool-cases (is_cache_miss er)) [
        | inl c ↦
            let v = p.count local false u in
            rw c (
              rw c
                (remote_booked w v k (remote.get k v) (miss-IsMissed w u e) (remote_keeps.get k v)))
        | inr c ↦ rw c (rw c (Booked-still w u e))
      ]
      local_booked w k (u, panicked) e = Booked-still w u e

      -- Over any sequence of lookups in the proxy that newProxy builds, the hits of its two layers
      -- grow together by the number of lookups that are answered, and the distributed layer counts
      -- no more lookups than the local one counts misses.
      pub lookups-hits :
          (ks : List Bytes) (w : W)
          → let (end, replies) = lookups (layered p ttl remote lower) ks w in
            ((account end).hits ≡ (account w).hits + answers replies)
            × ((account end).remote + (account w).local_misses
                ≤ (account w).remote + (account end).local_misses)
      unfolding lookups layered proxy proxy_get metrics_cache
      lookups-hits [] w = (omega arith, omega arith)
      lookups-hits (k ∷ ks) w =
          let first = local_booked w k (lower.get k w) (lower_keeps.get k w) in
          let next = ((layered p ttl remote lower).get k w).0 in
          let rest = lookups-hits ks next in
          (omega (arith, first.hits, rest.0), omega (arith, first.reached, rest.1))
