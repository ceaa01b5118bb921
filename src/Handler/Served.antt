-- ===== src/Handler/Served.antt =====
-- From Create to Redirect of app/turl/handler.go: what a created link is answered with later.
use turl.Base.{
  ℕ, ◌^◌, ◌≤◌, ◌<◌, ◌≡◌, ◌⊎◌, inl, inr, ap, ◌∙◌, true, Option, some, List, [], ◌∷◌, length, arith,
  dec_lt,
}
use turl.Base58.{Bytes, decode}
use turl.Base58.RoundTrip.{decode-encode, length-encode_gt}
use turl.Base.Int.{pos, ◌+ℤ◌}
use turl.Errors.{Result, ok, panicked, is_invalid_input, is_expired_error, is_record_not_found}
use turl.Expiry.{Instant, Duration, is_expired}
use turl.Expiry.Codec.{IsStorable}
use turl.Action.{attempt, continue}
use turl.Cache.Contract.{View}
use turl.Handler.{
  Response, redirected, json, tiny_url, redirect, after_retrieve, short_url_expired,
  short_url_not_found,
}
use turl.Handler.Build.{
  sides_service, side_create, side_delete, side_retrieve, side_get_by_long, side_reap, serve_sides,
  serve_all_sides,
}
use turl.Handler.Built.{serve_all_sides-IsCoherent}
use turl.Handler.Redirect.{redirect_accepted}
use turl.Service.{Parts, ModelUrl, create, retrieve}
use turl.Service.Build.{Sides}
use turl.Service.Create.{create-safe, create-IsCoherent}
use turl.Service.Grows.{
  Grows, Grows-refl, Grows-trans, create-Growing, delete-Growing, retrieve-Growing, find-Growing,
  janitor-Growing,
}
use turl.Service.Reach.{Request, creating, deleting, retrieving, finding, reaping}
use turl.Service.Safety.{IsHonest, IsCoherent}
use turl.Service.Served.{IsServing, Serves, retrieve-Serves}

module _ {W : Type 0} (view : View W) (validate : Bytes → Result (Unit {0}))
    (command query : Parts W) (command_honest : IsHonest view command)
    (query_honest : IsHonest view query) (serving : IsServing view query) where
  open view use {Known, time}

  -- A service with both sides.
  abbrev pub both_sides : Sides W
  both_sides = record { command = some command; query = some query }

  serve-Grows : (q : Request) (w : W) → Grows view w (serve_sides validate both_sides q w)
  unfolding serve_sides sides_service side_create side_delete side_retrieve side_get_by_long
      side_reap
  serve-Grows (creating long ttl) w = (create-Growing view command command_honest long ttl).at w
  serve-Grows (deleting k) w = (delete-Growing view command command_honest k).at w
  serve-Grows (retrieving k) w = (retrieve-Growing view query query_honest k).at w
  serve-Grows (finding long) w = (find-Growing view query query_honest long).at w
  serve-Grows reaping w = (janitor-Growing view command command_honest).at w

  serve_all-Grows :
      (qs : List Request) (w : W) → Grows view w (serve_all_sides validate both_sides qs w)
  unfolding serve_all_sides
  serve_all-Grows [] w = Grows-refl view w
  serve_all-Grows (q ∷ qs) w =
      let u : W = serve_sides validate both_sides q w in
      Grows-trans view w u _ (serve-Grows q w) (serve_all-Grows qs u)

  -- No number was given to two links.
  abbrev pub IsUnique : W → Type 0
  IsUnique w =
      (n : ℕ) (l l' : Bytes) (e e' : Option Instant)
      → Known w n l e
      → Known w n l' e'
      → (l' ≡ l) × (e' ≡ e)

  -- The response to a request for a link that ended in the world `end`: a redirect to its URL, or
  -- "expired", and it has, or "not found", and it was removed, or a panic, and the link expires within
  -- 10 ns of the end.
  abbrev pub Leads : Bytes → Bytes → Option Instant → W → Result Response → Type 0
  Leads short long e end r =
      (r ≡ ok (redirected 302 long))
      ⊎ ((r ≡ ok (json 410 (tiny_url short []) short_url_expired))
          × (is_expired (time end) e ≡ true))
      ⊎ ((r ≡ ok (json 404 (tiny_url short []) short_url_not_found))
          × (n : ℕ) × (decode short ≡ ok n)
          × serving.Gone end n)
      ⊎ ((r ≡ panicked) × (is_expired (time end +ℤ pos 10) e ≡ true))

  module _ (domain short long : Bytes) (n : ℕ) (e : Option Instant) where
    -- What the handler answers for what the service found.
    abbrev answer : W → Result Bytes → Result Response
    answer w reply =
        (continue (attempt (λ u. (w, reply)) w)
          (after_retrieve domain (sides_service validate both_sides) short)).1

    answer_Leads :
        (r : W × Result Bytes)
        → decode short ≡ ok n
        → Serves view serving.Gone n long e r
        → Leads short long e r.0 (answer r.0 r.1)
    unfolding after_retrieve is_invalid_input is_expired_error is_record_not_found
    answer_Leads r named (inl found) = inl (ap (answer r.0) found)
    answer_Leads r named (inr (inl late)) = inr (inl (ap (answer r.0) late.0, late.1))
    answer_Leads r named (inr (inr (inl gone))) =
        inr (inr (inl (ap (answer r.0) gone.0, n, named, gone.1)))
    answer_Leads r named (inr (inr (inr soon))) = inr (inr (inr (ap (answer r.0) soon.0, soon.1)))

    redirect-Leads :
        (w : W)
        → 6 ≤ length short
        → length short ≤ 8
        → decode short ≡ ok n
        → IsStorable e
        → IsCoherent view w
        → Known w n long e
        → IsUnique (retrieve query short w).0
        → Leads short long e
            (retrieve query short w).0
            (redirect domain (sides_service validate both_sides) short w).1
    unfolding sides_service side_retrieve
    redirect-Leads w lo hi named storable coherent known unique =
        let end : W = (retrieve query short w).0 in
        let there : Known end n long e =
          ((retrieve-Growing view query query_honest short).at w).known n long e known in
        rw (redirect_accepted domain (sides_service validate both_sides) short w lo hi) (
          answer_Leads (retrieve query short w) named (
            retrieve-Serves view query query_honest serving short n long e named storable w coherent
              known (λ l' e' other. unique n long l' e e' there other)))

  -- The world after a Create and some requests.
  abbrev pub later : Bytes → Duration → List Request → W → W
  later long ttl qs w =
      serve_all_sides validate both_sides qs
        ((sides_service validate both_sides).create long ttl w).0

  -- With parts that behave as documented and answer, of a service with both sides: from coherent caches, a
  -- link that Create answered with is still served after any requests, served or failed, in any
  -- order with any number of janitor ticks. A request for its short URL, of six to eight bytes, is
  -- answered with a redirect of status 302 to its URL, or with status 410 when it has expired, or
  -- with status 404 when it was removed, or the handler panics on a link that expires within 10 ns,
  -- since the redis cache cannot take so short a lifetime, provided that no number was given to two links and that the
  -- header of a cached value can hold the expiry.
  pub create-redirect :
      (domain long : Bytes) (ttl : Duration) (m : ModelUrl) (qs : List Request) (w : W)
      → IsCoherent view w
      → ((sides_service validate both_sides).create long ttl w).1 ≡ ok m
      → 6 ≤ length m.short_url
      → length m.short_url ≤ 8
      → IsStorable m.expires_at
      → IsUnique (retrieve query m.short_url (later long ttl qs w)).0
      → Leads m.short_url long m.expires_at
          (retrieve query m.short_url (later long ttl qs w)).0
          (redirect domain (sides_service validate both_sides) m.short_url (later long ttl qs w)).1
  unfolding sides_service side_create
  create-redirect domain long ttl m qs w coherent created lo hi storable unique =
      let (n, short, url, known) =
        create-safe view command command_honest long ttl m w coherent created in
      let small : n < 58 ^ 8 = elim (dec_lt n (58 ^ 8)) [
        | yes less ↦ less
        | no more ↦ absurd (
            let long_text = length-encode_gt 8 n (omega arith) in
            omega (arith, hi, ap length short))
      ] in
      redirect-Leads domain m.short_url long n m.expires_at (later long ttl qs w) lo hi
        (ap decode short ∙ decode-encode n small) storable
        (serve_all_sides-IsCoherent view validate both_sides qs _ (command_honest, query_honest)
          (create-IsCoherent view command command_honest long ttl w coherent))
        ((serve_all-Grows qs (create command long ttl w).0).known n long m.expires_at known) unique
