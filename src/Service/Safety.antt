-- ===== src/Service/Safety.antt =====
-- What the service relies on in its parts, and the rules by which its operations keep the caches
-- coherent with the links that were registered.
use turl.Base.{ℕ, Bool, true, false, Option, ◌≡◌, ◌⊎◌, refl, if◌then◌else◌, String}
use mathlib.Core.Path.{subst}
use turl.Base.Int.{◌≤ℤ◌}
use turl.Base58.{Bytes, encode, decode}
use turl.Errors.{Error, Result, ok, err, panicked}
use turl.Expiry.{Instant, encode_cache_value}
use turl.Action.{Action, pure, raise, panic, lift, attempt, wrap, ◌>>=◌, continue}
use turl.Cache.Contract.{View, IsQuiet, IsCache}
use turl.Storage.{TinyUrl, Database}
use turl.Service.{Parts}

module _ {W : Type 0} (view : View W) where
  open view use {Known, Cached}

  -- The documented behaviour of the statements: a link that the database answers is registered.
  pub record IsDatabase (db : Database W) : Type 0 where
    pub create :
        (n : ℕ) (l : Bytes) (e : Option Instant) (w : W) → IsQuiet view w (db.create n l e w).0
    pub create_ok :
        (n : ℕ) (l : Bytes) (e : Option Instant) (w : W) (r : TinyUrl)
        → (db.create n l e w).1 ≡ ok r
        → Known (db.create n l e w).0 n l r.expires_at
    pub take_short : (n : ℕ) (w : W) → IsQuiet view w (db.take_short n w).0
    pub take_short_ok :
        (n : ℕ) (w : W) (r : TinyUrl)
        → (db.take_short n w).1 ≡ ok r
        → Known (db.take_short n w).0 n r.long_url r.expires_at
    pub take_long_url : (l : Bytes) (w : W) → IsQuiet view w (db.take_long_url l w).0
    pub take_long_url_ok :
        (l : Bytes) (w : W) (r : TinyUrl)
        → (db.take_long_url l w).1 ≡ ok r
        → Known (db.take_long_url l w).0 r.short l r.expires_at
    pub delete_short : (n : ℕ) (w : W) → IsQuiet view w (db.delete_short n w).0
    pub delete_expired_before :
        (t : Instant) (n : ℕ) (w : W) → IsQuiet view w (db.delete_expired_before t n w).0

  -- The documented behaviour of the parts.
  pub record IsHonest (s : Parts W) : Type 0 where
    pub now : (w : W) → IsQuiet view w (s.now w).0
    -- The clock does not lag behind the time of day.
    pub now_time : (w : W) → view.time w ≤ℤ (s.now w).1
    pub next : (w : W) → IsQuiet view w (s.next w).0
    pub inc_shorten_created : (w : W) → IsQuiet view w (s.inc_shorten_created w)
    pub add_expired_reaped : (n : ℕ) (w : W) → IsQuiet view w (s.add_expired_reaped n w)
    pub db : IsDatabase s.db
    pub cache : IsCache view s.cache

  -- A key that stands for a number: its text, or any text that decodes to it.
  abbrev pub Names : Bytes → ℕ → Type 0
  Names k n = (decode k ≡ ok n) ⊎ (k ≡ encode n)

  -- What may be answered for a key is the entry of a registered link that the key stands for.
  abbrev pub IsEntry : W → Bytes → Bytes → Type 0
  IsEntry w k v =
      (n : ℕ) × (l : Bytes) × (e : Option Instant) × Names k n
      × Known w n l e
      × (v ≡ encode_cache_value l e)

  abbrev pub IsCoherent : W → Type 0
  IsCoherent w = (k v : Bytes) → Cached w k v → IsEntry w k v

  pub IsEntry-quiet : (w w' : W) (k v : Bytes) → IsQuiet view w w' → IsEntry w k v → IsEntry w' k v
  IsEntry-quiet w w' k v q (n, l, e, names, known, value) =
      (n, l, e, names, q.known n l e known, value)

  pub IsCoherent-quiet : (w w' : W) → IsQuiet view w w' → IsCoherent w → IsCoherent w'
  IsCoherent-quiet w w' q h k v c = IsEntry-quiet w w' k v q (h k v (q.cached k v c))

module _ {W A : Type 0} where
  -- What holds behind a call: a fact about its value, or nothing after an error or a panic.
  abbrev pub Post : (W → A → Type 0) → W × Result A → Type 0
  Post R (w, ok a) = R w a
  Post R (w, err e) = Unit
  Post R (w, panicked) = Unit

  -- The same for the reply of a call whose error is looked at.
  abbrev pub OfReply : (W → A → Type 0) → W → Result A → Type 0
  OfReply R w (ok a) = R w a
  OfReply R w (err e) = Unit
  OfReply R w panicked = Unit

  pub post_ok : (R : W → A → Type 0) (r : W × Result A) (a : A) → Post R r → r.1 ≡ ok a → R r.0 a
  post_ok R (w, ok b) a q e = let same : b ≡ a = cc in subst (R w) same q
  post_ok R (w, err x) a q e = absurd cc
  post_ok R (w, panicked) a q e = absurd cc

  pub Post-map :
      (R S : W → A → Type 0) (r : W × Result A)
      → ((w : W) (a : A) → R w a → S w a)
      → Post R r
      → Post S r
  Post-map R S (w, ok a) f q = f w a q
  Post-map R S (w, err x) f q = tt
  Post-map R S (w, panicked) f q = tt

  Post-both :
      (R S : W → A → Type 0) (r : W × Result A)
      → Post R r
      → Post S r
      → Post (λ w a. R w a × S w a) r
  Post-both R S (w, ok a) p q = (p, q)
  Post-both R S (w, err x) p q = tt
  Post-both R S (w, panicked) p q = tt

-- From a coherent world with P the call leaves a coherent one, with R of its value.
pub record Keeps {W A : Type 0} (view : View W) (P : W → Type 0) (m : Action W A)
    (R : W → A → Type 0) : Type 0 where
  pub at : (w : W) → IsCoherent view w → P w → IsCoherent view (m w).0 × Post R (m w)

module _ {W A : Type 0} (view : View W) where
  pub keeps_both :
      (P : W → Type 0) (R S : W → A → Type 0) (m : Action W A)
      → Keeps view P m R
      → Keeps view P m S
      → Keeps view P m (λ w a. R w a × S w a)
  keeps_both P R S m k j = record {
    at = λ w c p. ((k.at w c p).0, Post-both R S (m w) (k.at w c p).1 (j.at w c p).1);
  }

module _ {W : Type 0} (view : View W) where
  open view use {Known}

  module _ {A : Type 0} (P : W → Type 0) (R : W → A → Type 0) where
    pub keeps_pure : (a : A) → ((w : W) → P w → R w a) → Keeps view P (pure a) R
    keeps_pure a h = record { at = λ w c p. (c, h w p) }

    pub keeps_raise : (e : Error) → Keeps view P (raise e) R
    keeps_raise e = record { at = λ w c p. (c, tt) }

    pub keeps_panic : Keeps view P panic R
    keeps_panic = record { at = λ w c p. (c, tt) }

    pub Post-of : (w : W) (r : Result A) → ((a : A) → r ≡ ok a → R w a) → Post R (w, r)
    Post-of w (ok a) h = h a refl
    Post-of w (err e) h = tt
    Post-of w panicked h = tt

    pub keeps_lift :
        (r : Result A) → ((a : A) (w : W) → r ≡ ok a → P w → R w a) → Keeps view P (lift r) R
    keeps_lift r h = record { at = λ w c p. (c, Post-of w r (λ a e. h a w e p)) }

    -- A call that only registers links.
    pub keeps_quiet :
        (m : Action W A)
        → ((w : W) → IsQuiet view w (m w).0)
        → ((w : W) (a : A) → P w → (m w).1 ≡ ok a → R (m w).0 a)
        → Keeps view P m R
    keeps_quiet m quiet h = record {
      at = λ w c p.
          (IsCoherent-quiet view w (m w).0 (quiet w) c, Post-of (m w).0 (m w).1 (λ a e. h w a p e));
    }

    pub keeps_if :
        (b : Bool) (m n : Action W A)
        → Keeps view P m R
        → Keeps view P n R
        → Keeps view P (if b then m else n) R
    keeps_if true m n km kn = km
    keeps_if false m n km kn = kn

    -- The same, with what the test said.
    pub keeps_test :
        (b : Bool) (m n : Action W A)
        → (b ≡ true → Keeps view P m R)
        → (b ≡ false → Keeps view P n R)
        → Keeps view P (if b then m else n) R
    keeps_test true m n km kn = km refl
    keeps_test false m n km kn = kn refl

  module _ {A B : Type 0} (P : W → Type 0) (Q : W → A → Type 0) (R : W → B → Type 0) where
    continue_at :
        (r : W × Result A) (f : A → Action W B)
        → ((a : A) → Keeps view (λ w. Q w a) (f a) R)
        → IsCoherent view r.0
        → Post Q r
        → IsCoherent view (continue r f).0 × Post R (continue r f)
    continue_at (w, ok a) f kf c q = (kf a).at w c q
    continue_at (w, err e) f kf c q = (c, tt)
    continue_at (w, panicked) f kf c q = (c, tt)

    pub keeps_bind :
        (m : Action W A) (f : A → Action W B)
        → Keeps view P m Q
        → ((a : A) → Keeps view (λ w. Q w a) (f a) R)
        → Keeps view P (m >>= f) R
    keeps_bind m f km kf = record {
      at = λ w c p. let kept = km.at w c p in continue_at (m w) f kf kept.0 kept.1;
    }

  module _ {A : Type 0} (P : W → Type 0) (R : W → A → Type 0) (m : Action W A) where
    pub keeps_attempt : Keeps view P m R → Keeps view P (attempt m) (OfReply R)
    keeps_attempt k = record { at = λ w c p. let kept = k.at w c p in go (m w) kept.0 kept.1 }
      where
        go :
            (r : W × Result A)
            → IsCoherent view r.0
            → Post R r
            → IsCoherent view (attempt (λ w. r) r.0).0 × Post (OfReply R) (attempt (λ w. r) r.0)
        go (w, ok a) c q = (c, q)
        go (w, err e) c q = (c, tt)
        go (w, panicked) c q = (c, tt)

    pub keeps_wrap : (s : String) → Keeps view P m R → Keeps view P (wrap s m) R
    keeps_wrap s k = record { at = λ w c p. let kept = k.at w c p in go (m w) kept.0 kept.1 }
      where
        go :
            (r : W × Result A)
            → IsCoherent view r.0
            → Post R r
            → IsCoherent view (wrap s (λ w. r) r.0).0 × Post R (wrap s (λ w. r) r.0)
        go (w, ok a) c q = (c, q)
        go (w, err e) c q = (c, tt)
        go (w, panicked) c q = (c, tt)

    -- A call whose error is looked at: what holds of the world behind it, however it ended.
    pub keeps_tried :
        (S : W → Type 0)
        → ((w : W) → IsCoherent view w → P w → IsCoherent view (m w).0 × S (m w).0)
        → Keeps view P (attempt m) (λ w r. S w)
    keeps_tried S h = record { at = λ w c p. let kept = h w c p in go (m w) kept.0 kept.1 }
      where
        go :
            (r : W × Result A)
            → IsCoherent view r.0
            → S r.0
            → IsCoherent view (attempt (λ w. r) r.0).0 × Post (λ w r. S w) (attempt (λ w. r) r.0)
        go (w, ok a) c q = (c, q)
        go (w, err e) c q = (c, q)
        go (w, panicked) c q = (c, tt)
