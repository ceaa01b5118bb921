-- ===== src/Routing.antt =====
-- app/turl/http.go and pkg/middleware/gin.go: which handlers NewServer registers, with which middlewares,
-- and what the middlewares do. Gin itself is a parameter: how it combines what is registered, its
-- recovery and its tracing.
pub mod Limits
pub mod Server
use Prim.Native.String.{String}
use text.Mathlib.Text
use turl.Base.{ℕ, Bool, true, false, not, List, [], ◌∷◌, ◌++◌, leb, if◌then◌else◌}
use turl.Errors.{Result, ok, err, panicked}
use turl.Action.{Action}

-- What the middlewares read of a request.
pub record Request : Type 0 where
  pub method : String
  pub path : String
  pub full_path : String
  pub remote_addr : String

-- A handler, which ends with the status of its response.
abbrev pub Serve : Type 0 → Type 0
Serve W = Action W ℕ

-- A middleware: the request, and `c.Next()`.
abbrev pub Middleware : Type 0 → Type 0
Middleware W = Request → Serve W → Serve W

module _ {W : Type 0} where
  -- Logger: after the handlers, a record whose level is that of an error from status 400 on. A panic
  -- passes through.
  unfoldable pub after_logged : (Bool → Request → ℕ → W → W) → Request → W × Result ℕ → W × Result ℕ
  after_logged log req (w, ok status) = (log (leb 400 status) req status w, ok status)
  after_logged log req (w, err e) = (w, err e)
  after_logged log req (w, panicked) = (w, panicked)

  unfoldable pub logger : (Bool → Request → ℕ → W → W) → Middleware W
  unfolding after_logged
  logger log req next w = after_logged log req (next w)

  -- Metrics: after the handlers, an observation under the route's template.
  unfoldable pub after_observed :
      (String → String → ℕ → W → W) → Request → W × Result ℕ → W × Result ℕ
  after_observed observe req (w, ok status) =
      let path = if Text.◌==◌ req.full_path "" then "unmatched" else req.full_path in
      (observe req.method path status w, ok status)
  after_observed observe req (w, err e) = (w, err e)
  after_observed observe req (w, panicked) = (w, panicked)

  unfoldable pub metrics : (String → String → ℕ → W → W) → Middleware W
  unfolding after_observed
  metrics observe req next w = after_observed observe req (next w)

  -- RateLimiter, over the Take of a limiter.
  unfoldable pub rate_limiter : (String → W → W × Bool) → Middleware W
  rate_limiter take req next w =
      let (w', allowed) = take req.remote_addr w in if allowed then next w' else (w', ok 429)

  -- HealthCheck
  unfoldable pub health_check : String → Middleware W
  health_check health_check_path req next =
      let alive : Serve W = λ w. (w, ok 200) in
      if Text.◌==◌ req.path health_check_path then alive else next

-- The middlewares that NewServer uses, the last two with their limiters.
pub data Mark : Type 0 where
  otelgin metrics_mark logger_mark health_check_mark recovery : Mark
  stand_alone_read global_write : Mark

-- The handlers that NewServer registers.
pub data Target : Type 0 where
  redirect_target create_target info_target delete_target swagger_target : Target
  -- The handlers of gin-contrib/pprof, for all the routes that pprof.Register makes.
  pprof_target : Target

-- A call on gin's router: `Use` of the engine, also by way of what `GET` returns; a route of the engine;
-- a group with its own `Use`, and a route of the group.
pub data Registration : Type 0 where
  pprof : Registration
  use_root : List Mark → Registration
  route_root : String → String → Target → Registration
  group : String → List Mark → Registration
  route_group : String → String → Target → Registration

abbrev pub health_check_path : String
health_check_path = "/healthcheck"

-- The calls of NewServer, in order.
unfoldable pub management : String → List Registration
management prefix =
    group prefix (global_write ∷ [])
    ∷ route_group "POST" "/shorten" create_target
    ∷ route_group "GET" "/shorten" info_target
    ∷ route_group "DELETE" "/shorten" delete_target
    ∷ route_group "GET" "/swagger/*any" swagger_target
    ∷ []

unfoldable pub new_server : Bool → Bool → String → List Registration
unfolding management
new_server debug readonly prefix =
    (if debug then pprof ∷ [] else [])
    ++ (use_root (otelgin ∷ [])
        ∷ use_root (metrics_mark ∷ logger_mark ∷ health_check_mark ∷ [])
        ∷ use_root (recovery ∷ [])
        ∷ route_root "GET" "/:short" redirect_target
        ∷ use_root (stand_alone_read ∷ [])
        ∷ (if readonly then [] else management prefix))

-- What the middlewares of a server are made of.
pub record Engine (W : Type 0) : Type 0 where
  pub otel : Middleware W
  pub recover : Middleware W
  pub observe : String → String → ℕ → W → W
  pub log : Bool → Request → ℕ → W → W
  pub take_read : String → W → W × Bool
  pub take_write : String → W → W × Bool

module _ {W : Type 0} (e : Engine W) where
  unfoldable pub middleware : Mark → Middleware W
  unfolding logger metrics rate_limiter health_check
  middleware otelgin = e.otel
  middleware metrics_mark = metrics e.observe
  middleware logger_mark = logger e.log
  middleware health_check_mark = health_check health_check_path
  middleware recovery = e.recover
  middleware stand_alone_read = rate_limiter e.take_read
  middleware global_write = rate_limiter e.take_write

  -- A request through a chain of middlewares to a handler.
  unfoldable pub through : List Mark → Request → Serve W → Serve W
  unfolding middleware
  through [] req handler = handler
  through (m ∷ ms) req handler = middleware m req (through ms req handler)
