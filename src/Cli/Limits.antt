-- ===== src/Cli/Limits.antt =====
-- The time limits and the limiter of the server that serverStart runs.
use turl.Base.{◌≡◌, ◌⊎◌, inl, inr, refl, ap, Bool, true, none, some}
use turl.Base.Int.{pos, ◌≤ℤ◌}
use turl.Errors.{follow}
use turl.Action.{Action, lift}
use turl.Action.Gives.{
  Gives, gives-bind, gives-after, gives-pure, gives-if, bind-same, bind-same_after,
}
use turl.Clients.{RedisClients, client}
use turl.Config.{ServerConfig}
use turl.Config.Validation.{IsValid}
use turl.Handler.Build.{Handler, new_handler}
use turl.Logging.{new_logger}
use turl.Routing.{new_server}
use turl.Routing.Server.{
  Server, WriteLimiter, api_prefix, write_limiter, http_server, make_server, server_of,
}
use turl.Shutdown.{OptionFunc}
use turl.Cli.{Process, Flags, parse_config, init_tracing, server_start}
use turl.Cli.Ready.{parse_config-Accepted}

-- A server that waits at most a set time, of at least a second, for each part of a request and for its
-- handler, and that has the management routes only behind a limiter.
pub record IsLimited {W : Type 0} (s : Server W) : Type 0 where
  pub header : pos 1000000000 ≤ℤ s.http.read_header_timeout
  pub read : pos 1000000000 ≤ℤ s.http.read_timeout
  pub write : pos 1000000000 ≤ℤ s.http.write_timeout
  pub handled : pos 1000000000 ≤ℤ s.handler_timeout
  pub managed :
      ((l : WriteLimiter W) × (s.write_limiter ≡ some l))
      ⊎ ((debug : Bool) × (s.routes ≡ new_server debug true api_prefix))

module _ {W : Type 0} (clients : RedisClients W) where
  write_limiter_lem :
      (c : ServerConfig)
      → Gives
          (write_limiter clients c)
          (λ o. ((l : WriteLimiter W) × (o ≡ some l)) ⊎ (c.readonly ≡ true))
  unfolding write_limiter
  write_limiter_lem c =
      gives-if _ c.readonly _ _ (λ readonly. gives-pure _ none (inr readonly))
        (λ writing. gives-after (lift (follow c.cache)) _ (λ caches.
          gives-after (lift (follow caches.redis)) _ (λ redis.
            gives-after (client clients redis) _ (λ rdb. gives-pure _ (some _) (inl (_, refl))))))

  make_server-IsLimited : (c : ServerConfig) → IsValid c → Gives (make_server clients c) IsLimited
  unfolding make_server http_server
  make_server-IsLimited c valid =
      gives-bind (write_limiter clients c) _ (write_limiter_lem c) (λ limiter managed.
        gives-pure IsLimited (server_of clients c limiter) (record {
          header = valid.timeout;
          read = valid.timeout;
          write = valid.timeout;
          handled = valid.timeout;
          managed = elim managed [
            | inl there ↦ inl there
            | inr readonly ↦ inr (c.debug, ap (λ b. new_server c.debug b api_prefix) readonly)
          ];
        }))

module _ {W D P E R T : Type 0} (p : Process W D P E R T) where
  -- A start of the server listens only on a server that waits for at least a second, and not for ever, for
  -- the headers and the body of a request, for its handler and for the response, and that has the
  -- management routes only with the limiter of writes: with any other way to listen, that agrees on
  -- such servers, the start is the same.
  pub server_start-limited :
      (other : Server W → Handler W → Action W (OptionFunc W)) (flags : Flags) (w : W)
      → ((s : Server W) → IsLimited s → other s ≡ p.listen s)
      → server_start (record p { listen = other }) flags w ≡ server_start p flags w
  unfolding server_start
  server_start-limited other flags w agree =
      ap (λ m. m w)
        (bind-same (parse_config p flags) _ _ (parse_config-Accepted p flags) (λ conf accepted.
          bind-same_after (lift (follow conf.log)) _ _ (λ log.
            bind-same_after (lift (new_logger log)) _ _ (λ logger.
              bind-same_after (p.set_default logger) _ _ (λ u.
                bind-same_after (init_tracing p conf.observability) _ _ (λ tracing.
                  bind-same_after (new_handler p.packages conf) _ _ (λ handler.
                    bind-same (make_server p.packages.caches.clients conf) _ _
                      (make_server-IsLimited p.packages.caches.clients conf accepted.1)
                      (λ server limited. rw (agree server limited) refl))))))))
