-- ===== src/Shutdown.antt =====
-- pkg/shutdown/graceful_shutdown.go: the steps of a shutdown, one after the other.
pub mod Order
use turl.Base.{List, [], ◌∷◌}
use turl.Errors.{Result, ok, err, panicked}
use turl.Action.{Action, pure, attempt, ◌>>=◌, ◌>>◌}

-- OptionFunc
abbrev pub OptionFunc : Type 0 → Type 0
OptionFunc W = Action W (Unit {0})

module _ {W : Type 0} where
  -- HandlerShutdown and HTTPServerShutdown: an error is logged and returned.
  unfoldable pub handler_shutdown : Action W (Unit {0}) → OptionFunc W
  handler_shutdown close = do close; pure tt

  unfoldable pub http_server_shutdown : Action W (Unit {0}) → OptionFunc W
  http_server_shutdown shutdown = do shutdown; pure tt

  -- GracefulShutdown: an error of a step is logged, and the next one is taken.
  unfoldable pub graceful_shutdown : List (OptionFunc W) → Action W (Unit {0})
  graceful_shutdown [] = pure tt
  graceful_shutdown (opt ∷ opts) = do attempt opt; graceful_shutdown opts
