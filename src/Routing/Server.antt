-- ===== src/Routing/Server.antt =====
-- The server that NewServer of app/turl/http.go returns: its routes, its limiters and its time limits.
use Prim.Native.String.{String}
use turl.Base.{Bool, true, Option, none, some, List, if◌then◌else◌}
use turl.Base.Int.{ℤ, pos}
use turl.Errors.{follow}
use turl.Action.{Action, pure, lift, ◌>>=◌}
use turl.Cache.{Redis}
use turl.Clients.{RedisClients, client}
use turl.Config.{ServerConfig}
use turl.Expiry.{Duration}
use turl.Http.{HttpServer}
use turl.Routing.{Registration, new_server}

-- The arguments of NewItemRedisTokenRateLimiter, the limiter of the management routes.
pub record WriteLimiter (W : Type 0) : Type 0 where
  pub rdb : Redis W
  pub key : String
  pub rate : ℤ
  pub burst : ℤ
  pub interval : Duration

-- The result of NewServer: the calls on gin's router, the arguments of the two limiters, the time after
-- which http.TimeoutHandler answers in place of the router, and with which text, and the server around it.
pub record Server (W : Type 0) : Type 0 where
  pub use_h2c : Bool
  pub routes : List Registration
  pub read_rate : ℤ
  pub read_burst : ℤ
  pub write_limiter : Option (WriteLimiter W)
  pub handler_timeout : Duration
  pub timeout_text : String
  pub http : HttpServer

-- Version and prefix of the API.
abbrev pub api_prefix : String
api_prefix = "/v1/management"

-- The server around the router.
unfoldable pub http_server : ServerConfig → HttpServer
http_server c = record {
  host = c.listen;
  port = c.port;
  read_header_timeout = c.request_timeout;
  read_timeout = c.request_timeout;
  write_timeout = c.request_timeout;
}

module _ {W : Type 0} (clients : RedisClients W) where
  -- The limiter of writes over its own client, which NewServer makes where it registers the management
  -- routes.
  unfoldable pub write_limiter : ServerConfig → Action W (Option (WriteLimiter W))
  write_limiter c =
      let made : Action W (Option (WriteLimiter W)) = do
        caches ← lift (follow c.cache)
        redis ← lift (follow caches.redis)
        rdb ← client clients redis
        pure (
            some (record {
              rdb = rdb;
              key = c.global_rate_limit_key;
              rate = c.global_write_rate;
              burst = c.global_write_burst;
              interval = pos 1000000000;
            }))
      in if c.readonly then pure none else made

  -- What NewServer returns with a limiter of writes.
  abbrev pub server_of : ServerConfig → Option (WriteLimiter W) → Server W
  server_of c limiter = record {
    use_h2c = true;
    routes = new_server c.debug c.readonly api_prefix;
    read_rate = c.stand_alone_read_rate;
    read_burst = c.stand_alone_read_burst;
    write_limiter = limiter;
    handler_timeout = c.request_timeout;
    timeout_text = "request timeout";
    http = http_server c;
  }

  -- NewServer
  unfoldable pub make_server : ServerConfig → Action W (Server W)
  unfolding write_limiter new_server http_server
  make_server c = do limiter ← write_limiter c; pure (server_of c limiter)
