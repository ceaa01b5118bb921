-- ===== src/Tests/Measures.antt =====
-- A prometheus client in memory, two layers of cache, and a handler that panics behind a recovery.
use Prim.Native.String.{String}
use text.Mathlib.Text
use text.Mathlib.TextEquality.{eq_iff}
use turl.Base.{
  ℕ, suc, ◌+◌, ◌≡◌, ◌≢◌, ◌≤◌, ◌⊎◌, inl, inr, refl, Bool, true, false, Bool-cases, List, [], ◌∷◌,
  length, ◌==◌, ==_iff, if◌then◌else◌,
}
use turl.Errors.{Result, ok, err, panicked, cache_miss}
use turl.Action.{pure, raise, panic}
use turl.Cache.{Interface}
use turl.Cache.Build.{CachePackages, layered}
use turl.Cache.Accounts.{Keeps, Fills, lookups, answers}
use turl.Clients.{RedisClients}
use turl.Base.Int.{pos}
use turl.Base58.{Bytes}
use turl.Routing.{
  Request, Engine, metrics_mark, logger_mark, health_check_mark, recovery, middleware, through,
}
use turl.Metrics.{Options, Prometheus}
use turl.Metrics.Counts.{Raises, IsPrometheus, cache_counter, account, lookups-counters}
use turl.Metrics.Requests.{observer, IsAnswering, IsCounted, through-IsCounted}

-- The values of all counters, by the subsystem and the label values.
abbrev Counters : Type 0
Counters = String → List String → ℕ

abbrev same_values : List String → List String → Bool
same_values [] [] = true
same_values (a ∷ xs) (b ∷ bs) = if Text.◌==◌ a b then same_values xs bs else false
same_values _ _ = false

same_text : (a : String) → Text.◌==◌ a a ≡ true
same_text a = (eq_iff a a).1 refl

same_values_refl : (values : List String) → same_values values values ≡ true
same_values_refl [] = refl
same_values_refl (a ∷ xs) = rw (same_text a) (same_values_refl xs)

same_values-true : (xs bs : List String) → same_values xs bs ≡ true → xs ≡ bs
same_values-true [] [] h = refl
same_values-true [] (b ∷ bs) h = absurd cc
same_values-true (a ∷ xs) [] h = absurd cc
same_values-true (a ∷ xs) (b ∷ bs) h = elim (Bool-cases (Text.◌==◌ a b)) [
  | inl e ↦
      let rest : same_values xs bs ≡ true = rw e at h in
      let head : a ≡ b = (eq_iff a b).0 e in let tail = same_values-true xs bs rest in cc
  | inr e ↦ let wrong : false ≡ true = rw e at h in absurd cc
]

abbrev raise_count : Options → List String → Counters → Counters
raise_count o values w s vs =
    if Text.◌==◌ s o.subsystem
    then (if same_values vs values then suc (w s vs) else w s vs)
    else w s vs

abbrev client : Prometheus Counters ℕ
client = record {
  must_register = λ cs. pure tt;
  increment = λ o values w.
      if length values == length o.labels then (raise_count o values w, ok tt) else (w, panicked);
  observe = λ o values x w. if length values == length o.labels then (w, ok tt) else (w, panicked);
  add = λ o x. pure tt;
  float64 = λ n. 0;
}

client-Raises :
    (o : Options) (values : List String) (w : Counters)
    → length values ≡ length o.labels
    → Raises (λ v o' vs. v o'.subsystem vs) o values w (client.increment o values w)
client-Raises o values w h =
    let fits : (length values == length o.labels) ≡ true = (==_iff _ _).1 h in
    record {
      well = rw fits refl;
      raised = rw (fits, same_text o.subsystem, same_values_refl values) refl;
      others = λ o' values' apart. rw fits (kept o o' values values' w apart);
    }
  where
    kept :
        (o o' : Options) (values values' : List String) (w : Counters)
        → (o'.subsystem ≢ o.subsystem) ⊎ (values' ≢ values)
        → raise_count o values w o'.subsystem values' ≡ w o'.subsystem values'
    kept o o' values values' w apart = elim (Bool-cases (Text.◌==◌ o'.subsystem o.subsystem)) [
      | inl e ↦ elim (Bool-cases (same_values values' values)) [
        | inl f ↦ elim apart [
          | inl other ↦ absurd (other ((eq_iff _ _).0 e))
          | inr other ↦ absurd (other (same_values-true values' values f))
        ]
        | inr f ↦ rw (e, f) refl
      ]
      | inr e ↦ rw e refl
    ]

client-IsPrometheus : IsPrometheus client
client-IsPrometheus = record {
  value = λ w o values. w o.subsystem values;
  increments = client-Raises;
  observes = λ o values x w h.
      let fits : (length values == length o.labels) ≡ true = (==_iff _ _).1 h in
      rw fits (refl, λ o' values'. refl);
}

-- A remote layer that answers every key but the empty one, and a local one that never does.
abbrev remote : Interface Counters
remote = record {
  set = λ k v ttl. pure tt;
  get = λ k. if length k == 0 then raise cache_miss else pure k;
  del = λ k. pure tt;
  ping = pure tt;
  close = pure tt;
}

abbrev lower : Interface Counters
lower = record remote { get = λ k. raise cache_miss }

abbrev empty : Counters
empty s values = 0

calm : ◌≡◌ {A = Result (Unit {0})} (ok tt) panicked → ⊥
calm e = cc

remote-Keeps : Keeps (account client client-IsPrometheus) remote
remote-Keeps = record {
  get = λ k w. elim (Bool-cases (length k == 0)) [ inl e ↦ rw e refl | inr e ↦ rw e refl ];
}

lower-Keeps : Keeps (account client client-IsPrometheus) lower
lower-Keeps = record { get = λ k w. refl }

lower-Fills : Fills (account client client-IsPrometheus) lower
lower-Fills = record { set = λ k v ttl w. (refl, calm) }

abbrev clients : RedisClients Counters
clients = record {
  new_universal_client = λ addr timeout most least. panic;
  instrument_tracing = λ r. pure tt;
}

abbrev keys : List Bytes
keys = (49 ∷ []) ∷ [] ∷ (50 ∷ []) ∷ []

lookups-counters_example :
    let packages : CachePackages Counters = record {
      clients = clients;
      new_big_cache = λ ttl capacity max. panic;
      count = cache_counter client;
    } in
    let (end, replies) = lookups (layered packages (pos 0) remote lower) keys empty in
    (end "cache" ("local" ∷ "hit" ∷ []) + end "cache" ("distributed" ∷ "hit" ∷ [])
      ≡ 0 + answers replies)
    × (end "cache" ("distributed" ∷ "hit" ∷ []) + end "cache" ("distributed" ∷ "miss" ∷ []) + 0
        ≤ 0 + end "cache" ("local" ∷ "miss" ∷ []))
unfolding client-IsPrometheus
lookups-counters_example =
    lookups-counters client client-IsPrometheus clients (λ ttl capacity max. panic) (pos 0) remote
      lower remote-Keeps lower-Keeps lower-Fills keys empty

abbrev request : Request
request = record {
  method = "GET";
  path = "/abc";
  full_path = "/:short";
  remote_addr = "10.0.0.1:80";
}

abbrev text_of : ℕ → String
text_of n = if n == 500 then "500" else "200"

-- gin.Recovery, which answers a panic with status 500.
recovered : Counters × Result ℕ → Counters × Result ℕ
recovered (w, ok status) = (w, ok status)
recovered (w, err e) = (w, ok 500)
recovered (w, panicked) = (w, ok 500)

abbrev engine : Engine Counters
engine = record {
  otel = λ req next. next;
  recover = λ req next w. recovered (next w);
  observe = observer client text_of (λ w. 0);
  log = λ bad req status w. w;
  take_read = λ addr w. (w, true);
  take_write = λ addr w. (w, true);
}

answering :
    IsAnswering client text_of
      (λ w. 0)
      client-IsPrometheus
      (middleware engine recovery request (through engine [] request panic))
unfolding middleware through recovered
answering w = (500, refl, λ values. refl)

through-IsCounted_example :
    (status : ℕ) × IsCounted client text_of
      (λ w. 0)
      client-IsPrometheus
      engine
      request
      status
      empty
      (through engine
        (metrics_mark ∷ logger_mark ∷ health_check_mark ∷ recovery ∷ [])
        request
        panic
        empty)
through-IsCounted_example =
    through-IsCounted client text_of (λ w. 0) client-IsPrometheus engine request [] panic refl
      (λ bad status w values. refl) answering empty
