-- ===== src/Routing/Limits.antt =====
-- Which requests the two rate limiters of app/turl/http.go stand before.
use Prim.Native.String.{String}
use mathlib.Core.Path.{fun_ext}
use turl.Base.{◌≡◌, ap, Bool, false, List, [], ◌∷◌, ◌++◌, All, if◌then◌else◌}
use turl.Errors.{ok}
use turl.Routing.{
  Request, Serve, Mark, otelgin, metrics_mark, logger_mark, health_check_mark, recovery,
  stand_alone_read, global_write, Target, redirect_target, create_target, info_target,
  delete_target, swagger_target, pprof_target, Registration, pprof, use_root, route_root, group,
  route_group, Engine, through, middleware, rate_limiter,
}

-- The middlewares that the engine has after some calls.
unfoldable pub used : List Registration → List Mark
used [] = []
used (use_root ms ∷ rs) = ms ++ used rs
used (_ ∷ rs) = used rs

-- A route of a group.
abbrev pub IsGroupRoute : Registration → Type 0
IsGroupRoute (route_group method path t) = Unit
IsGroupRoute _ = ⊥

-- What gin documents: a route, and those of pprof, take the middlewares that the engine, or its group, has when it is
-- registered, and a group starts with those of the engine. `chain_at` gives the middlewares of a
-- route that is registered after some calls.
pub record IsGin (chain_at : List Registration → Registration → List Mark) : Type 0 where
  pub debugging : (pre : List Registration) → chain_at pre pprof ≡ used pre
  pub root :
      (pre : List Registration) (method path : String) (t : Target)
      → chain_at pre (route_root method path t) ≡ used pre
  pub grouped :
      (pre mid : List Registration) (prefix method path : String) (ms : List Mark) (t : Target)
      → All IsGroupRoute mid
      → chain_at (pre ++ group prefix ms ∷ mid) (route_group method path t) ≡ used pre ++ ms

-- The handlers that a list of calls registers, with their middlewares.
unfoldable pub routes :
    (List Registration → Registration → List Mark)
    → List Registration
    → List Registration
    → List (Target × List Mark)
routes chain_at pre [] = []
routes chain_at pre (route_root method path t ∷ rs) =
    (t, chain_at pre (route_root method path t))
    ∷ routes chain_at (pre ++ route_root method path t ∷ []) rs
routes chain_at pre (route_group method path t ∷ rs) =
    (t, chain_at pre (route_group method path t))
    ∷ routes chain_at (pre ++ route_group method path t ∷ []) rs
routes chain_at pre (pprof ∷ rs) =
    (pprof_target, chain_at pre pprof) ∷ routes chain_at (pre ++ pprof ∷ []) rs
routes chain_at pre (r ∷ rs) = routes chain_at (pre ++ r ∷ []) rs

abbrev pub base_marks : List Mark
base_marks = otelgin ∷ metrics_mark ∷ logger_mark ∷ health_check_mark ∷ recovery ∷ []

abbrev pub management_marks : List Mark
management_marks = base_marks ++ stand_alone_read ∷ global_write ∷ []

abbrev pub expected : Bool → Bool → List (Target × List Mark)
expected debug readonly =
    (if debug then (pprof_target, []) ∷ [] else [])
    ++ (redirect_target, base_marks)
      ∷ (if readonly
          then []
          else (create_target, management_marks)
            ∷ (info_target, management_marks)
            ∷ (delete_target, management_marks)
            ∷ (swagger_target, management_marks)
            ∷ [])

-- The calls before the redirect's route, and those before the group.
abbrev engine_marks : Bool → List Registration
engine_marks debug =
    (if debug then pprof ∷ [] else [])
    ++ (use_root (otelgin ∷ [])
        ∷ use_root (metrics_mark ∷ logger_mark ∷ health_check_mark ∷ [])
        ∷ use_root (recovery ∷ [])
        ∷ [])

abbrev before_group : Bool → List Registration
before_group debug =
    engine_marks debug
    ++ (route_root "GET" "/:short" redirect_target ∷ use_root (stand_alone_read ∷ []) ∷ [])

-- The routes of the group before each of its other routes.
abbrev one : List Registration
one = route_group "POST" "/shorten" create_target ∷ []

abbrev two : List Registration
two = one ++ route_group "GET" "/shorten" info_target ∷ []

abbrev three : List Registration
three = two ++ route_group "DELETE" "/shorten" delete_target ∷ []

module _ {W : Type 0} (e : Engine W) where
  -- A request that the limiter of reads refuses whatever came before is answered with status 429 by
  -- every chain of middlewares around the limiter, and its handler and the limiter of writes are not
  -- reached.
  through_refused :
      (ms rest : List Mark) (req : Request) (handler : Serve W)
      → ((w : W) → (e.take_read req.remote_addr w).1 ≡ false)
      → through e (ms ++ stand_alone_read ∷ rest) req handler
        ≡ through e ms req (λ w. ((e.take_read req.remote_addr w).0, ok 429))
  unfolding through middleware rate_limiter
  through_refused [] rest req handler refused = fun_ext (λ w. rw (refused w))
  through_refused (m ∷ ms) rest req handler refused =
      ap (middleware e m req) (through_refused ms rest req handler refused)
