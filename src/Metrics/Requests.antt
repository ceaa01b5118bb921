-- ===== src/Metrics/Requests.antt =====
-- The middleware Metrics of pkg/middleware/gin.go over ObserveHTTPRequest: which requests are counted.
use Prim.Native.String.{String}
use text.Mathlib.Text
use turl.Base.{
  ℕ, suc, ◌≡◌, ◌≢◌, inl, inr, refl, ap, ◌∙◌, Bool, Bool-cases, List, [], ◌∷◌, if◌then◌else◌, leb,
}
use turl.Errors.{Result, ok, err, panicked}
use turl.Action.{continue}
use turl.Routing.{
  Request, Serve, Mark, metrics_mark, logger_mark, health_check_mark, recovery, Engine, through,
  middleware, metrics, after_observed, logger, after_logged, health_check, health_check_path,
}
use turl.Metrics.{Prometheus, http_requests_total, http_request_duration, observe_http_request}
use turl.Metrics.Counts.{Raises, IsPrometheus}

module _ {W Float : Type 0} (p : Prometheus W Float) (itoa : ℕ → String) (since : W → Float) where
  -- What Metrics calls, with strconv.Itoa and time.Since as parameters.
  unfoldable pub observer : String → String → ℕ → W → W
  observer method path status w = (observe_http_request p method path (itoa status) (since w) w).0

  -- The template of a request's route, or the word for a request that matches none.
  abbrev pub template : Request → String
  template req = if Text.◌==◌ req.full_path "" then "unmatched" else req.full_path

  module _ (law : IsPrometheus p) where
    observed :
        (method path status : String) (seconds : Float) (w : W) (r : W × Result (Unit {0}))
        → Raises law.value http_requests_total (method ∷ path ∷ status ∷ []) w r
        → Raises law.value http_requests_total
            (method ∷ path ∷ status ∷ [])
            w
            (continue r (λ u. p.observe http_request_duration (method ∷ path ∷ []) seconds))
    observed method path status seconds w (u, ok a) h =
        let quiet = law.observes http_request_duration (method ∷ path ∷ []) seconds u refl in
        record {
          well = quiet.0;
          raised = quiet.1 http_requests_total (method ∷ path ∷ status ∷ []) ∙ h.raised;
          others = λ o values apart. quiet.1 o values ∙ h.others o values apart;
        }
    observed method path status seconds w (u, err e) h = absurd (let no = h.well in cc)
    observed method path status seconds w (u, panicked) h = absurd (let no = h.well in cc)

    -- ObserveHTTPRequest raises the count of exactly one method, path and status, and does not panic.
    pub observe_http_request-Raises :
        (method path status : String) (seconds : Float) (w : W)
        → Raises law.value http_requests_total
            (method ∷ path ∷ status ∷ [])
            w
            (observe_http_request p method path status seconds w)
    unfolding observe_http_request
    observe_http_request-Raises method path status seconds w =
        observed method path status seconds w _
          (law.increments http_requests_total (method ∷ path ∷ status ∷ []) w refl)

    abbrev requests_of : List String → W → ℕ
    requests_of values w = law.value w http_requests_total values

    -- A handler that answers with a status and counts no request.
    abbrev pub IsAnswering : Serve W → Type 0
    IsAnswering serve =
        (w : W)
        → (status : ℕ) × ((serve w).1 ≡ ok status)
          × ((values : List String) → requests_of values (serve w).0 ≡ requests_of values w)

    module _ (e : Engine W) (req : Request) where
      -- The log does not touch the counters.
      abbrev pub IsLogging : Type 0
      IsLogging =
          (bad : Bool) (status : ℕ) (w : W) (values : List String)
          → requests_of values (e.log bad req status w) ≡ requests_of values w

      logged :
          (r : W × Result ℕ) (status : ℕ)
          → r.1 ≡ ok status
          → after_logged e.log req r ≡ (e.log (leb 400 status) req status r.0, ok status)
      unfolding after_logged
      logged (u, ok n) status h = cc
      logged (u, err er) status h = absurd cc
      logged (u, panicked) status h = absurd cc

      counted_reply :
          (r : W × Result ℕ) (status : ℕ)
          → r.1 ≡ ok status
          → after_observed e.observe req r
            ≡ (e.observe req.method (template req) status r.0, ok status)
      unfolding after_observed
      counted_reply (u, ok n) status h = cc
      counted_reply (u, err er) status h = absurd cc
      counted_reply (u, panicked) status h = absurd cc

      -- The middleware Metrics has counted a reply with this status.
      abbrev pub IsCounted : ℕ → W → W × Result ℕ → Type 0
      IsCounted status w end =
          (end.1 ≡ ok status)
          × (requests_of (req.method ∷ template req ∷ itoa status ∷ []) end.0
              ≡ suc (requests_of (req.method ∷ template req ∷ itoa status ∷ []) w))
          × ((values : List String)
              → values ≢ req.method ∷ template req ∷ itoa status ∷ []
              → requests_of values end.0 ≡ requests_of values w)

      metrics-IsCounted :
          (w : W) (r : W × Result ℕ) (status : ℕ)
          → e.observe ≡ observer
          → r.1 ≡ ok status
          → ((values : List String) → requests_of values r.0 ≡ requests_of values w)
          → IsCounted status w (after_observed e.observe req r)
      unfolding observer
      metrics-IsCounted w r status same answer keeps =
          let counted =
            observe_http_request-Raises req.method (template req) (itoa status) (since r.0) r.0 in
          rw (counted_reply r status answer, same)
            (
              refl,
              counted.raised ∙ ap suc (keeps _),
              λ values other. counted.others http_requests_total values (inr other) ∙ keeps values,
            )

      health-IsAnswering :
          (next : Serve W)
          → IsAnswering next
          → IsAnswering (middleware e health_check_mark req next)
      unfolding middleware health_check
      health-IsAnswering next h w = elim (Bool-cases (Text.◌==◌ req.path health_check_path)) [
        | inl at ↦ rw at (200, refl, λ values. refl)
        | inr at ↦ rw at (h w)
      ]

      logger-IsAnswering :
          (next : Serve W)
          → IsLogging
          → IsAnswering next
          → IsAnswering (middleware e logger_mark req next)
      unfolding middleware logger
      logger-IsAnswering next logs h w =
          let found = h w in
          rw (logged (next w) found.0 found.1)
            (found.0, refl, λ values. logs _ _ _ values ∙ found.2 values)

      -- Where the handlers behind gin's recovery are answered with a status, panics included, and
      -- neither they nor the log touch the counters, every request is answered with a status, and
      -- `turl_http_requests_total` counts it once, under its method, the template of its route and this
      -- status, and nothing else: a probe of the health check and a request that is refused as well.
      pub through-IsCounted :
          (rest : List Mark) (handler : Serve W)
          → e.observe ≡ observer
          → IsLogging
          → IsAnswering (middleware e recovery req (through e rest req handler))
          → (w : W)
          → (status : ℕ) × IsCounted status w (
              through e
                (metrics_mark ∷ logger_mark ∷ health_check_mark ∷ recovery ∷ rest)
                req
                handler
                w)
      unfolding through middleware metrics
      through-IsCounted rest handler same logs answers w =
          let found = logger-IsAnswering _ logs (health-IsAnswering _ answers) w in
          (found.0, metrics-IsCounted w _ found.0 same found.1 found.2)
