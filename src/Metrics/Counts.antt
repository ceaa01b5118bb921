-- ===== src/Metrics/Counts.antt =====
-- What the functions of pkg/metrics do to the counters, over what prometheus documents: a counter has
-- one value for each list of label values, and a list of the wrong length panics.
use Prim.Native.String.{String}
use text.Mathlib.Text
use text.Mathlib.TextEquality.{eq_iff}
use turl.Base.{
  ℕ, suc, ◌+◌, ◌≡◌, ◌≢◌, ◌⊎◌, inl, inr, refl, Bool, true, false, arith, ◌≤◌, List, [], ◌∷◌, length,
}
use turl.Errors.{Result, ok}
use turl.Action.{Action}
use turl.Base.Int.{ℤ}
use turl.Base58.{Bytes}
use turl.Expiry.{Duration}
use turl.Clients.{RedisClients}
use turl.Cache.{Interface, BigCache, Counter, Layer, local, distributed}
use turl.Cache.Build.{CachePackages, layered}
use turl.Cache.Accounts.{Account, entry, Keeps, Fills, lookups, answers, lookups-hits}
use turl.Metrics.{
  Options, Prometheus, cache_layer_local, cache_layer_distributed, cache_requests_total,
  record_cache_result,
}

-- A call that ends well, and that leaves the value of one child of one counter one higher and all
-- other values as they were.
pub record Raises {W : Type 0} (value : W → Options → List String → ℕ) (o : Options)
    (values : List String) (w : W) (end : W × Result (Unit {0})) : Type 0 where
  pub well : end.1 ≡ ok tt
  pub raised : value end.0 o values ≡ suc (value w o values)
  pub others :
      (o' : Options) (values' : List String)
      → (o'.subsystem ≢ o.subsystem) ⊎ (values' ≢ values)
      → value end.0 o' values' ≡ value w o' values'

pub record IsPrometheus {W Float : Type 0} (p : Prometheus W Float) : Type 0 where
  -- The value of a counter for a list of label values.
  pub value : W → Options → List String → ℕ
  pub increments :
      (o : Options) (values : List String) (w : W)
      → length values ≡ length o.labels
      → Raises value o values w (p.increment o values w)
  pub observes :
      (o : Options) (values : List String) (x : Float) (w : W)
      → length values ≡ length o.labels
      → ((p.observe o values x w).1 ≡ ok tt)
        × ((o' : Options) (values' : List String)
            → value (p.observe o values x w).0 o' values' ≡ value w o' values')

values_apart :
    (a b a' b' : String)
    → (Text.◌==◌ a' a ≡ false) ⊎ (Text.◌==◌ b' b ≡ false)
    → a' ∷ b' ∷ [] ≢ a ∷ b ∷ []
values_apart a b a' b' (inl h) e =
    let same : Text.◌==◌ a' a ≡ true = (eq_iff a' a).1 cc in absurd cc
values_apart a b a' b' (inr h) e =
    let same : Text.◌==◌ b' b ≡ true = (eq_iff b' b).1 cc in absurd cc

account_eq :
    {a a' b b' c c' : ℕ}
    → a ≡ a'
    → b ≡ b'
    → c ≡ c'
    → ◌≡◌ {A = Account}
        (record { hits = a; local_misses = b; remote = c })
        (record { hits = a'; local_misses = b'; remote = c' })
account_eq e f g = cc

module _ {W Float : Type 0} (p : Prometheus W Float) where
  abbrev layer_label : Layer → String
  layer_label local = cache_layer_local
  layer_label distributed = cache_layer_distributed

  -- The counter of the caches.
  abbrev pub cache_counter : Counter W
  cache_counter layer hit w = (record_cache_result p (layer_label layer) hit w).0

  module _ (law : IsPrometheus p) where
    abbrev lookups_of : String → String → W → ℕ
    lookups_of layer result w = law.value w cache_requests_total (layer ∷ result ∷ [])

    -- The account of the lookups, as the counters show it.
    abbrev pub account : W → Account
    account w = record {
      hits = lookups_of "local" "hit" w + lookups_of "distributed" "hit" w;
      local_misses = lookups_of "local" "miss" w;
      remote = lookups_of "distributed" "hit" w + lookups_of "distributed" "miss" w;
    }

    record-Raises :
        (layer result : String) (w : W)
        → Raises law.value cache_requests_total
            (layer ∷ result ∷ [])
            w
            (p.increment cache_requests_total (layer ∷ result ∷ []) w)
    record-Raises layer result w = law.increments cache_requests_total (layer ∷ result ∷ []) w refl

    -- The other lookups keep their values.
    record_keeps :
        (layer result layer' result' : String) (w : W)
        → (Text.◌==◌ layer' layer ≡ false) ⊎ (Text.◌==◌ result' result ≡ false)
        → lookups_of layer' result' (p.increment cache_requests_total (layer ∷ result ∷ []) w).0
          ≡ lookups_of layer' result' w
    record_keeps layer result layer' result' w apart =
        (record-Raises layer result w).others cache_requests_total (layer' ∷ result' ∷ [])
          (inr (values_apart layer result layer' result' apart))

    -- RecordCacheResult, for either layer and either outcome, enters exactly this lookup in the
    -- counters, and does not panic.
    pub record_cache_result-entry :
        (layer : Layer) (hit : Bool) (w : W)
        → (account (cache_counter layer hit w) ≡ entry layer hit (account w))
          × ((record_cache_result p (layer_label layer) hit w).1 ≡ ok tt)
    unfolding record_cache_result
    record_cache_result-entry local true w =
        let r = record-Raises "local" "hit" w in
        let a = record_keeps "local" "hit" "local" "miss" w (inr refl) in
        let b = record_keeps "local" "hit" "distributed" "hit" w (inl refl) in
        let c = record_keeps "local" "hit" "distributed" "miss" w (inl refl) in
        (account_eq (omega (arith, r.raised, b)) a (omega (arith, b, c)), r.well)
    record_cache_result-entry local false w =
        let r = record-Raises "local" "miss" w in
        let a = record_keeps "local" "miss" "local" "hit" w (inr refl) in
        let b = record_keeps "local" "miss" "distributed" "hit" w (inl refl) in
        let c = record_keeps "local" "miss" "distributed" "miss" w (inl refl) in
        (account_eq (omega (arith, a, b)) r.raised (omega (arith, b, c)), r.well)
    record_cache_result-entry distributed true w =
        let r = record-Raises "distributed" "hit" w in
        let a = record_keeps "distributed" "hit" "local" "hit" w (inl refl) in
        let b = record_keeps "distributed" "hit" "local" "miss" w (inl refl) in
        let c = record_keeps "distributed" "hit" "distributed" "miss" w (inr refl) in
        (account_eq (omega (arith, r.raised, a)) b (omega (arith, r.raised, c)), r.well)
    record_cache_result-entry distributed false w =
        let r = record-Raises "distributed" "miss" w in
        let a = record_keeps "distributed" "miss" "local" "hit" w (inl refl) in
        let b = record_keeps "distributed" "miss" "local" "miss" w (inl refl) in
        let c = record_keeps "distributed" "miss" "distributed" "hit" w (inr refl) in
        (account_eq (omega (arith, a, c)) b (omega (arith, r.raised, c)), r.well)

    -- Over any sequence of lookups in the proxy that newProxy builds over two layers whose Get does not
    -- touch the metrics, where the Set of the local layer, which is filled, neither touches them nor
    -- panics, `turl_cache_requests_total` counts as many hits, of both
    -- layers together, as lookups that were answered, and no more lookups of the distributed layer than
    -- misses of the local one.
    pub lookups-counters :
        (clients : RedisClients W) (new_big_cache : Duration → ℤ → ℤ → Action W (BigCache W))
        (ttl : Duration) (remote lower : Interface W)
        → Keeps account remote
        → Keeps account lower
        → Fills account lower
        → (ks : List Bytes) (w : W)
        → let packages : CachePackages W = record {
          clients = clients;
          new_big_cache = new_big_cache;
          count = cache_counter;
        } in
          let (end, replies) = lookups (layered packages ttl remote lower) ks w in
          (lookups_of "local" "hit" end + lookups_of "distributed" "hit" end
            ≡ lookups_of "local" "hit" w + lookups_of "distributed" "hit" w + answers replies)
          × (lookups_of "distributed" "hit" end
                + lookups_of "distributed" "miss" end
                + lookups_of "local" "miss" w
              ≤ lookups_of "distributed" "hit" w
                + lookups_of "distributed" "miss" w
                + lookups_of "local" "miss" end)
    lookups-counters clients new_big_cache ttl remote lower remote_keeps lower_keeps lower_fills ks
          w =
        lookups-hits account _ (λ layer hit u. (record_cache_result-entry layer hit u).0) ttl remote
          lower remote_keeps lower_keeps lower_fills ks w
