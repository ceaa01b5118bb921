-- ===== src/RateLimit/TokenScript.antt =====
-- The script of pkg/workqueue/token_script.go, which redis runs in one piece. The numbers of Lua and the
-- commands of redis are parameters, so that each sum and quotient is the one that Lua computes, rounding
-- included.
pub mod Refused
use turl.Base.{ℕ, Bool, true, false, Option, none, some, if◌then◌else◌}
use turl.Errors.{Result, ok, err, redis_nil, backend}
use turl.Action.{Action}

-- The numbers of Lua: tonumber of a decimal argument, + - * /, math.max, math.min, math.floor and >=.
pub record Lua : Type 1 where
  pub Number : Type 0
  pub tonumber : ℕ → Number
  pub plus : Number → Number → Number
  pub minus : Number → Number → Number
  pub times : Number → Number → Number
  pub over : Number → Number → Number
  pub max : Number → Number → Number
  pub min : Number → Number → Number
  pub floor : Number → Number
  pub at_least : Number → Number → Bool

-- GET of the two keys, as tonumber reads the reply, none where it gives nil, and PSETEX with a lifetime in
-- milliseconds; none is an error reply.
pub record ScriptKeys (L : Lua) : Type 1 where
  pub State : Type 0
  pub get_tokens : State → Option L.Number
  pub get_timestamp : State → Option L.Number
  pub set_tokens : L.Number → L.Number → State → Option State
  pub set_timestamp : L.Number → L.Number → State → Option State

module _ (L : Lua) where
  -- fill_time
  unfoldable pub fill_time : L.Number → L.Number → L.Number
  fill_time rate capacity = L.over (L.times (L.tonumber 1000) capacity) rate

  -- ttl
  unfoldable pub ttl_of : L.Number → L.Number → L.Number
  unfolding fill_time
  ttl_of rate capacity = L.floor (L.times (fill_time rate capacity) (L.tonumber 2))

  -- current_tokens and last_refreshed
  unfoldable pub or_default : Option L.Number → L.Number → L.Number
  or_default none d = d
  or_default (some n) d = n

  -- filled_tokens, from the two values that were read
  unfoldable pub filled_tokens :
      L.Number → L.Number → L.Number → Option L.Number → Option L.Number → L.Number
  unfolding or_default
  filled_tokens rate capacity now tokens timestamp =
      let current_tokens = or_default tokens capacity in
      let last_refreshed = or_default timestamp (L.tonumber 0) in
      let delta = L.max (L.tonumber 0) (L.minus now last_refreshed) in
      L.min capacity (L.plus current_tokens (L.over (L.times delta rate) (L.tonumber 1000)))

  unfoldable pub new_tokens : L.Number → L.Number → L.Number
  new_tokens filled consumed =
      if L.at_least filled consumed then L.minus filled consumed else filled

  module _ (K : ScriptKeys L) where
    -- The return value, behind the second PSETEX.
    unfoldable pub after_timestamp : Bool → K.State → Option K.State → K.State × Option Bool
    after_timestamp allowed s none = (s, none)
    after_timestamp allowed s (some s') = (s', some allowed)

    -- What follows the first PSETEX.
    unfoldable pub after_tokens :
        L.Number → L.Number → Bool → K.State → Option K.State → K.State × Option Bool
    unfolding after_timestamp
    after_tokens ttl now allowed s none = (s, none)
    after_tokens ttl now allowed s (some s') =
        after_timestamp allowed s' (K.set_timestamp ttl now s')

    -- The script; none is an error reply.
    unfoldable pub allow_script :
        L.Number → L.Number → L.Number → L.Number → K.State → K.State × Option Bool
    unfolding ttl_of filled_tokens new_tokens after_tokens
    allow_script rate capacity now consumed s =
        let ttl = ttl_of rate capacity in
        let filled = filled_tokens rate capacity now (K.get_tokens s) (K.get_timestamp s) in
        let allowed = L.at_least filled consumed in
        after_tokens ttl now allowed s (K.set_tokens ttl (new_tokens filled consumed) s)

    -- The reply as `Bool` of the client reads it: a true is 1, and a false is nil.
    unfoldable pub reply_of : Option Bool → Result Bool
    reply_of none = err (backend 0)
    reply_of (some true) = ok true
    reply_of (some false) = err redis_nil

    -- allowN.Run of reserveN, for one token, at the time of the caller's clock.
    unfoldable pub run_script : (K.State → ℕ) → ℕ → ℕ → Action K.State Bool
    unfolding allow_script reply_of
    run_script now rate capacity s =
        let (s', reply) =
          allow_script (L.tonumber rate) (L.tonumber capacity) (L.tonumber (now s)) (L.tonumber 1)
            s in
        (s', reply_of reply)
