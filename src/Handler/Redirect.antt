-- ===== src/Handler/Redirect.antt =====
-- `Redirect` of app/turl/handler.go over the query service: what a redirect leads to, and which short URLs
-- are refused before the service is called.
use turl.Base.{
  false, ℕ, ◌^◌, ◌≤◌, ◌<◌, ◌≡◌, ◌⊎◌, inl, inr, arith, dec_lt, Option, ap, ◌∙◌, List, [], length,
}
use turl.Base58.{Bytes, encode, decode}
use turl.Base58.RoundTrip.{length-encode_le, length-encode_gt}
use turl.Errors.{Result, ok, err, panicked}
use turl.Expiry.{Instant, is_expired}
use turl.Action.{attempt, continue}
use turl.Service.{Parts, retrieve}
use turl.Cache.Contract.{View}
use turl.Service.Safety.{IsHonest, IsCoherent}
use turl.Service.Reach.{Request, serve_all, serve_all-IsCoherent, served-safe}
use turl.Service.Retrieve.{retrieve-live}
use turl.Expiry.Codec.{IsStorable}
use turl.Handler.{
  Service, redirected, json, redirect, after_retrieve, service, tiny_url, invalid_short_url,
}

module _ {W : Type 0} (domain : Bytes) (s : Service W) where
  -- A short URL of fewer than six or more than eight bytes gets status 400, and the service is not called.
  redirect_refused :
      (short : Bytes) (w : W)
      → (length short < 6) ⊎ (8 < length short)
      → redirect domain s short w ≡ (w, ok (json 400 (tiny_url short []) invalid_short_url))
  unfolding redirect
  redirect_refused short w h = ground arith

  pub redirect_accepted :
      (short : Bytes) (w : W)
      → 6 ≤ length short
      → length short ≤ 8
      → redirect domain s short w
        ≡ continue (attempt (s.retrieve short) w) (after_retrieve domain s short)
  unfolding redirect
  redirect_accepted short w lo hi = ground arith

  -- If the service finds a URL for the short URL of a number from 58 ^ 5 to 58 ^ 8 - 1, Redirect
  -- answers this URL with status 302.
  redirect-encode :
      (n : ℕ) (long : Bytes) (w w' : W)
      → 58 ^ 5 ≤ n
      → n < 58 ^ 8
      → s.retrieve (encode n) w ≡ (w', ok long)
      → redirect domain s (encode n) w ≡ (w', ok (redirected 302 long))
  unfolding after_retrieve
  redirect-encode n long w w' lo hi e =
      redirect_accepted (encode n) w (length-encode_gt 5 n lo) (length-encode_le 8 n hi)
      ∙ ap (λ r. continue (attempt (λ u. r) w) (after_retrieve domain s (encode n))) e

  leads_to_found :
      (short long : Bytes) (status : ℕ) (r : W × Result Bytes) (w : W)
      → (continue (attempt (λ u. r) w) (after_retrieve domain s short)).1
        ≡ ok (redirected status long)
      → (r.1 ≡ ok long) × (status ≡ 302)
  unfolding after_retrieve
  leads_to_found short long status (u, ok x) w h = (cc, cc)
  leads_to_found short long status (u, err e) w h = absurd (ground arith)
  leads_to_found short long status (u, panicked) w h = absurd cc

  -- A redirect leads to what the service found, with status 302.
  pub found_of_redirect :
      (short long : Bytes) (status : ℕ) (w : W)
      → (redirect domain s short w).1 ≡ ok (redirected status long)
      → ((s.retrieve short w).1 ≡ ok long) × (status ≡ 302)
  found_of_redirect short long status w h = elim (dec_lt (length short) 6) [
    | yes few ↦ absurd (cc (redirect_refused short w (inl few)))
    | no enough ↦ elim (dec_lt 8 (length short)) [
      | yes many ↦ absurd (cc (redirect_refused short w (inr many)))
      | no fits ↦
          leads_to_found short long status (s.retrieve short w) w
            (cc (redirect_accepted short w (omega arith) (omega arith)))
    ]
  ]

module _ {W : Type 0} (view : View W) (parts : Parts W) (honest : IsHonest view parts)
    (domain : Bytes) where
  open view use {Known, time}

  -- With parts that behave as documented: from coherent caches, after any requests to the
  -- service in any order and any number of janitor ticks, a redirect has status 302, its
  -- location is the URL of a registered link, and the short URL decodes to the number of this
  -- link.
  pub redirect-safe :
      (qs : List Request) (short long : Bytes) (status : ℕ) (w : W)
      → IsCoherent view w
      → (redirect domain (service parts parts) short (serve_all parts qs w)).1
        ≡ ok (redirected status long)
      → (status ≡ 302)
        × (n : ℕ) × (e : Option Instant) × (decode short ≡ ok n)
        × Known (retrieve parts short (serve_all parts qs w)).0 n long e
  unfolding service
  redirect-safe qs short long status w c h =
      let found = found_of_redirect domain (service parts parts) short long status _ h in
      let (n, e, named, known) = served-safe view parts honest qs short long w c found.0 in
      (found.1, n, e, named, known)

  -- With parts that behave as documented, where the registered links have no expiry or one that the
  -- header of a cached value can hold: from coherent caches, after any requests to the service in any order and any number
  -- of janitor ticks, a redirect leads to the URL of a registered link whose number the short URL decodes
  -- to and that had not expired when the redirect was asked for.
  redirect-live :
      (qs : List Request) (short long : Bytes) (status : ℕ) (w : W)
      → ((n : ℕ) (l : Bytes) (e : Option Instant)
          → Known (retrieve parts short (serve_all parts qs w)).0 n l e
          → IsStorable e)
      → IsCoherent view w
      → (redirect domain (service parts parts) short (serve_all parts qs w)).1
        ≡ ok (redirected status long)
      → (n : ℕ) × (e : Option Instant) × (decode short ≡ ok n)
        × Known (retrieve parts short (serve_all parts qs w)).0 n long e
        × (is_expired (time (serve_all parts qs w)) e ≡ false)
  unfolding service
  redirect-live qs short long status w storable c h =
      let found = found_of_redirect domain (service parts parts) short long status _ h in
      retrieve-live view parts honest short long (serve_all parts qs w) storable
        (serve_all-IsCoherent view parts honest qs w c) found.0
