-- ===== src/Service/Reach.antt =====
-- Requests to the services of app/turl/service.go in any order, with the ticks of the janitor between
-- them.
use turl.Base.{ℕ, ◌≡◌, Option, List, [], ◌∷◌}
use turl.Base58.{Bytes, decode}
use turl.Errors.{ok}
use turl.Expiry.{Instant, Duration}
use turl.Service.{Parts, create, delete, retrieve, get_by_long, janitor_tick}
use turl.Cache.Contract.{View}
use turl.Service.Safety.{
  IsHonest, IsCoherent, Keeps, keeps_lift, keeps_bind, keeps_pure, keeps_quiet,
}
use turl.Service.Retrieve.{retrieve-IsCoherent, retrieve-safe}
use turl.Service.Create.{create-IsCoherent, delete-IsCoherent, janitor-IsCoherent}
use turl.Action.{lift}
use turl.Storage

pub data Request : Type 0 where
  creating : Bytes → Duration → Request
  deleting retrieving finding : Bytes → Request
  reaping : Request

module _ {W : Type 0} (s : Parts W) where
  -- What a request leaves behind; an error or a panic ends the request and not the program.
  unfoldable pub serve : Request → W → W
  serve (creating long ttl) w = (create s long ttl w).0
  serve (deleting k) w = (delete s k w).0
  serve (retrieving k) w = (retrieve s k w).0
  serve (finding long) w = (get_by_long s long w).0
  serve reaping w = (janitor_tick s w).0

  unfoldable pub serve_all : List Request → W → W
  unfolding serve
  serve_all [] w = w
  serve_all (q ∷ qs) w = serve_all qs (serve q w)

module _ {W : Type 0} (view : View W) (s : Parts W) (honest : IsHonest view s) where
  open view use {Known, Cached}

  find_keeps : (long : Bytes) → Keeps view (λ w. Unit {0}) (get_by_long s long) (λ w m. Unit {0})
  unfolding get_by_long Storage.get_by_long_url
  find_keeps long =
      keeps_bind view _ (λ w u. Unit {0}) _ (lift (s.validate long)) _
        (keeps_lift view _ _ (s.validate long) (λ u w e p. tt))
        (λ u.
          keeps_bind view _ (λ w r. Unit {0}) _ (Storage.get_by_long_url s.db long) _
            (keeps_quiet view _ _ _ (honest.db.take_long_url long) (λ w r p e. tt))
            (λ r. keeps_pure view _ _ _ (λ w p. tt)))

  pub find-IsCoherent :
      (long : Bytes) (w : W) → IsCoherent view w → IsCoherent view (get_by_long s long w).0
  find-IsCoherent long w c = ((find_keeps long).at w c tt).0

  serve-IsCoherent : (q : Request) (w : W) → IsCoherent view w → IsCoherent view (serve s q w)
  unfolding serve
  serve-IsCoherent (creating long ttl) w c = create-IsCoherent view s honest long ttl w c
  serve-IsCoherent (deleting k) w c = delete-IsCoherent view s honest k w c
  serve-IsCoherent (retrieving k) w c = retrieve-IsCoherent view s honest k w c
  serve-IsCoherent (finding long) w c = find-IsCoherent long w c
  serve-IsCoherent reaping w c = janitor-IsCoherent view s honest w c

  pub serve_all-IsCoherent :
      (qs : List Request) (w : W) → IsCoherent view w → IsCoherent view (serve_all s qs w)
  unfolding serve_all
  serve_all-IsCoherent [] w c = c
  serve_all-IsCoherent (q ∷ qs) w c = serve_all-IsCoherent qs (serve s q w) (serve-IsCoherent q w c)

  -- From coherent caches, after any requests, served or failed, in any order with any number of
  -- janitor ticks, a URL that Retrieve answers is the URL of a registered link, and the short URL
  -- decodes to the number of this link.
  pub served-safe :
      (qs : List Request) (k long : Bytes) (w : W)
      → IsCoherent view w
      → (retrieve s k (serve_all s qs w)).1 ≡ ok long
      → (n : ℕ) × (e : Option Instant) × (decode k ≡ ok n)
        × Known (retrieve s k (serve_all s qs w)).0 n long e
  served-safe qs k long w c h =
      retrieve-safe view s honest k long (serve_all s qs w) (serve_all-IsCoherent qs w c) h
