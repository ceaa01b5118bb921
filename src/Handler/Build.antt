-- ===== src/Handler/Build.antt =====
-- app/turl/handler.go: NewHandler, CheckReadiness and Close, over the service as a whole. A method of a service
-- that is missing runs up to its first use of the service, which panics.
use turl.Base.{Option, none, some, List, [], ◌∷◌}
use turl.Base58.{Bytes, codes, decode}
use turl.Errors.{Result}
use turl.Expiry.{Duration}
use turl.Action.{Action, pure, panic, lift, ◌>>=◌, ◌>>◌}
use turl.Config.{ServerConfig}
use turl.Handler.{Service}
use turl.Service.{Parts, ModelUrl, create, delete, retrieve, get_by_long, janitor_tick}
use turl.Service.Build.{Packages, Sides, new_service, check_health, close_service}
use turl.Service.Reach.{Request, creating, deleting, retrieving, finding, reaping}

-- Handler
pub record Handler (W : Type 0) : Type 0 where
  pub domain : Bytes
  pub sides : Sides W

module _ {W : Type 0} (validate : Bytes → Result (Unit {0})) where
  -- The methods of the embedded services, over the validator of URLs.
  unfoldable pub side_create : Option (Parts W) → Bytes → Duration → Action W ModelUrl
  side_create (some command) long ttl = create command long ttl
  side_create none long ttl = do lift (validate long); panic

  unfoldable pub side_delete : Option (Parts W) → Bytes → Action W (Unit {0})
  side_delete (some command) short = delete command short
  side_delete none short = do lift (decode short); panic

  unfoldable pub side_retrieve : Option (Parts W) → Bytes → Action W Bytes
  side_retrieve (some query) short = retrieve query short
  side_retrieve none short = do lift (decode short); panic

  unfoldable pub side_get_by_long : Option (Parts W) → Bytes → Action W ModelUrl
  side_get_by_long (some query) long = get_by_long query long
  side_get_by_long none long = do lift (validate long); panic

  unfoldable pub sides_service : Sides W → Service W
  unfolding side_create side_delete side_retrieve side_get_by_long
  sides_service s = record {
    create = side_create s.command;
    retrieve = side_retrieve s.query;
    get_by_long = side_get_by_long s.query;
    delete = side_delete s.command;
  }

  -- The janitor runs for a command service.
  unfoldable pub side_reap : Option (Parts W) → W → W
  side_reap none w = w
  side_reap (some command) w = (janitor_tick command w).0

  -- What a request leaves behind.
  unfoldable pub serve_sides : Sides W → Request → W → W
  unfolding sides_service side_reap
  serve_sides s (creating long ttl) w = ((sides_service s).create long ttl w).0
  serve_sides s (deleting short) w = ((sides_service s).delete short w).0
  serve_sides s (retrieving short) w = ((sides_service s).retrieve short w).0
  serve_sides s (finding long) w = ((sides_service s).get_by_long long w).0
  serve_sides s reaping w = side_reap s.command w

  unfoldable pub serve_all_sides : Sides W → List Request → W → W
  unfolding serve_sides
  serve_all_sides s [] w = w
  serve_all_sides s (q ∷ qs) w = serve_all_sides s qs (serve_sides s q w)

module _ {W D P : Type 0} (p : Packages W D P) where
  -- NewHandler
  unfoldable pub new_handler : ServerConfig → Action W (Handler W)
  unfolding new_service
  new_handler c = do
    sides ← new_service p c
    pure (record { domain = codes c.domain; sides = sides })

module _ {W : Type 0} where
  -- CheckReadiness
  unfoldable pub check_readiness : Handler W → Action W (Unit {0})
  unfolding check_health
  check_readiness h = check_health h.sides

  -- Close
  unfoldable pub close_handler : Handler W → Action W (Unit {0})
  unfolding close_service
  close_handler h = close_service h.sides
