-- ===== src/Handler/Built.antt =====
-- A handler that NewHandler builds, from its packages to its redirects.
use turl.Base.{ℕ, ◌≡◌, ◌≢◌, false, Option, none, some, List, [], ◌∷◌}
use turl.Base58.{Bytes, decode}
use turl.Errors.{Result, ok, err, panicked}
use turl.Expiry.{Instant, Duration, is_expired}
use turl.Expiry.Codec.{IsStorable}
use turl.Action.{Action, panic, lift, ◌>>=◌}
use turl.Action.Gives.{Gives, gives-pure, gives-bind}
use turl.Cache.Contract.{View}
use turl.Config.{ServerConfig}
use turl.Handler.{redirect, redirected}
use turl.Handler.Redirect.{found_of_redirect}
use turl.Handler.Build.{
  Handler, new_handler, sides_service, side_create, side_delete, side_retrieve, side_get_by_long,
  side_reap, serve_sides, serve_all_sides,
}
use turl.Service.{Parts, ModelUrl}
use turl.Service.Build.{Packages, Sides, new_service}
use turl.Service.Create.{create-IsCoherent, delete-IsCoherent, janitor-IsCoherent}
use turl.Service.Honest.{AreHonest, Honest, AllHonest, new_service-AllHonest}
use turl.Service.Reach.{Request, creating, deleting, retrieving, finding, reaping, find-IsCoherent}
use turl.Service.Retrieve.{retrieve-IsCoherent, retrieve-live}
use turl.Service.Safety.{IsCoherent}

module _ {W A : Type 0} (B : Type 0) where
  -- A test that a panic follows changes nothing and has no value.
  abbrev fails : Result A → Action W B
  fails r = lift r >>= λ a. panic

  fails_kept : (P : W → Type 0) (r : Result A) (w : W) → P w → P (fails r w).0
  fails_kept P (ok a) w h = h
  fails_kept P (err e) w h = h
  fails_kept P panicked w h = h

  fails_never : (r : Result A) (w : W) (b : B) → (fails r w).1 ≢ ok b
  fails_never (ok a) w b h = absurd cc
  fails_never (err e) w b h = absurd cc
  fails_never panicked w b h = absurd cc

module _ {W : Type 0} (view : View W) (validate : Bytes → Result (Unit {0})) where
  open view use {Known, time}

  module _ (w : W) (c : IsCoherent view w) where
    create_kept :
        (o : Option (Parts W)) (long : Bytes) (ttl : Duration)
        → Honest view o
        → IsCoherent view (side_create validate o long ttl w).0
    unfolding side_create
    create_kept none long ttl h = fails_kept ModelUrl (IsCoherent view) (validate long) w c
    create_kept (some p) long ttl h = create-IsCoherent view p h long ttl w c

    delete_kept :
        (o : Option (Parts W)) (short : Bytes)
        → Honest view o
        → IsCoherent view (side_delete validate o short w).0
    unfolding side_delete
    delete_kept none short h = fails_kept Unit (IsCoherent view) (decode short) w c
    delete_kept (some p) short h = delete-IsCoherent view p h short w c

    retrieve_kept :
        (o : Option (Parts W)) (short : Bytes)
        → Honest view o
        → IsCoherent view (side_retrieve validate o short w).0
    unfolding side_retrieve
    retrieve_kept none short h = fails_kept Bytes (IsCoherent view) (decode short) w c
    retrieve_kept (some p) short h = retrieve-IsCoherent view p h short w c

    find_kept :
        (o : Option (Parts W)) (long : Bytes)
        → Honest view o
        → IsCoherent view (side_get_by_long validate o long w).0
    unfolding side_get_by_long
    find_kept none long h = fails_kept ModelUrl (IsCoherent view) (validate long) w c
    find_kept (some p) long h = find-IsCoherent view p h long w c

    reap_kept : (o : Option (Parts W)) → Honest view o → IsCoherent view (side_reap validate o w)
    unfolding side_reap
    reap_kept none h = c
    reap_kept (some p) h = janitor-IsCoherent view p h w c

  serve_sides-IsCoherent :
      (s : Sides W) (q : Request) (w : W)
      → AllHonest view s
      → IsCoherent view w
      → IsCoherent view (serve_sides validate s q w)
  unfolding serve_sides sides_service
  serve_sides-IsCoherent s (creating long ttl) w h c = create_kept w c s.command long ttl h.0
  serve_sides-IsCoherent s (deleting short) w h c = delete_kept w c s.command short h.0
  serve_sides-IsCoherent s (retrieving short) w h c = retrieve_kept w c s.query short h.1
  serve_sides-IsCoherent s (finding long) w h c = find_kept w c s.query long h.1
  serve_sides-IsCoherent s reaping w h c = reap_kept w c s.command h.0

  pub serve_all_sides-IsCoherent :
      (s : Sides W) (qs : List Request) (w : W)
      → AllHonest view s
      → IsCoherent view w
      → IsCoherent view (serve_all_sides validate s qs w)
  unfolding serve_all_sides
  serve_all_sides-IsCoherent s [] w h c = c
  serve_all_sides-IsCoherent s (q ∷ qs) w h c =
      serve_all_sides-IsCoherent s qs (serve_sides validate s q w) h
        (serve_sides-IsCoherent s q w h c)

  -- A registered link that the short URL stands for and that had not expired at an instant.
  abbrev pub IsLink : Bytes → Bytes → Instant → W → Type 0
  IsLink short long start w =
      (n : ℕ) × (e : Option Instant) × (decode short ≡ ok n)
      × Known w n long e
      × (is_expired start e ≡ false)

  side_retrieve-IsLink :
      (o : Option (Parts W)) (short long : Bytes) (w : W)
      → Honest view o
      → IsCoherent view w
      → ((n : ℕ) (l : Bytes) (e : Option Instant)
          → Known (side_retrieve validate o short w).0 n l e
          → IsStorable e)
      → (side_retrieve validate o short w).1 ≡ ok long
      → IsLink short long (time w) (side_retrieve validate o short w).0
  unfolding side_retrieve
  side_retrieve-IsLink none short long w h c storable e =
      absurd (fails_never Bytes (decode short) w long e)
  side_retrieve-IsLink (some p) short long w h c storable e =
      retrieve-live view p h short long w storable c e

module _ {W D P : Type 0} (p : Packages W D P) where
  -- The requests to a handler, over the validator that its services have.
  abbrev pub after : Handler W → List Request → W → W
  after h qs w = serve_all_sides p.validate h.sides qs w

module _ {W D P : Type 0} (view : View W) (p : Packages W D P) (law : AreHonest view p) where
  open view use {Known, time}

  new_handler-AllHonest : (c : ServerConfig) → Gives (new_handler p c) (λ h. AllHonest view h.sides)
  unfolding new_handler
  new_handler-AllHonest c =
      gives-bind (new_service p c) _ (new_service-AllHonest view p law c)
        (λ s h. gives-pure (λ k. AllHonest view k.sides) _ h)

  -- Where the packages behave as documented, and the registered links have no expiry or one that the
  -- header of a cached value can hold, for a handler that NewHandler builds, in either mode: from coherent
  -- caches, after any requests to it in any order and any number of janitor ticks, a redirect has status
  -- 302 and leads to the URL of a registered link whose number the short URL decodes to and that had not
  -- expired when the redirect was asked for.
  pub new_handler-redirect :
      (c : ServerConfig) (w0 : W) (h : Handler W) (qs : List Request) (short long : Bytes)
      (status : ℕ) (w : W)
      → (new_handler p c w0).1 ≡ ok h
      → IsCoherent view w
      → ((n : ℕ) (l : Bytes) (e : Option Instant)
          → Known ((sides_service p.validate h.sides).retrieve short (after p h qs w)).0 n l e
          → IsStorable e)
      → (redirect h.domain (sides_service p.validate h.sides) short (after p h qs w)).1
        ≡ ok (redirected status long)
      → (status ≡ 302)
        × IsLink view p.validate short long
            (time (after p h qs w))
            ((sides_service p.validate h.sides).retrieve short (after p h qs w)).0
  unfolding sides_service
  new_handler-redirect c w0 h qs short long status w built coherent storable e =
      let honest = new_handler-AllHonest c w0 h built in
      let found =
        found_of_redirect h.domain (sides_service p.validate h.sides) short long status _ e in
      (
        found.1,
        side_retrieve-IsLink view p.validate h.sides.query short long (after p h qs w) honest.1
            (serve_all_sides-IsCoherent view p.validate h.sides qs w honest coherent) storable
            found.0,
      )
