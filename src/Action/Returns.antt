-- ===== src/Action/Returns.antt =====
-- Calls that end with a value, call by call.
use mathlib.Core.Path.{subst}
use turl.Base.{◌≡◌, ◌≢◌, refl, Bool, true, false, String, if◌then◌else◌}
use turl.Errors.{Result, ok, err, panicked}
use turl.Action.{Action, pure, attempt, wrap, caught, continue, ◌>>=◌}

-- A call ends with a value, of which something holds.
pub record Returns {W A : Type 0} (P : W → Type 0) (m : Action W A) (Q : W → A → Type 0)
    : Type 0 where
  pub at : (w : W) → P w → (a : A) × ((m w).1 ≡ ok a) × Q (m w).0 a

module _ {W A : Type 0} (P : W → Type 0) where
  pub returns_pure : (Q : W → A → Type 0) (a : A) → ((w : W) → P w → Q w a) → Returns P (pure a) Q
  returns_pure Q a f = record { at = λ w p. (a, refl, f w p) }

  pub returns_wrap :
      (s : String) (m : Action W A) (Q : W → A → Type 0) → Returns P m Q → Returns P (wrap s m) Q
  returns_wrap s m Q h = record { at = λ w p. go (m w) (h.at w p) }
    where
      go :
          (r : W × Result A)
          → (a : A) × (r.1 ≡ ok a) × Q r.0 a
          → (a : A) × ((wrap s (λ u. r) r.0).1 ≡ ok a) × Q (wrap s (λ u. r) r.0).0 a
      go (w, ok x) q = q
      go (w, err x) (a, e, q) = absurd cc
      go (w, panicked) (a, e, q) = absurd cc

  pub returns_attempt :
      (m : Action W A) (Q : W → Result A → Type 0)
      → ((w : W) → P w → ((m w).1 ≢ panicked) × Q (m w).0 (m w).1)
      → Returns P (attempt m) Q
  returns_attempt m Q f = record { at = λ w p. go (m w) (f w p) }
    where
      go :
          (r : W × Result A)
          → (r.1 ≢ panicked) × Q r.0 r.1
          → (a : Result A) × ((caught r).1 ≡ ok a) × Q (caught r).0 a
      go (w, ok x) (calm, q) = (ok x, refl, q)
      go (w, err x) (calm, q) = (err x, refl, q)
      go (w, panicked) (calm, q) = absurd (calm refl)

  pub returns_if :
      (Q : W → A → Type 0) (b : Bool) (m k : Action W A)
      → Returns P m Q
      → Returns P k Q
      → Returns P (if b then m else k) Q
  returns_if Q true m k hm hk = hm
  returns_if Q false m k hm hk = hk

  pub returns_true :
      (Q : W → A → Type 0) (b : Bool) (m k : Action W A)
      → b ≡ true
      → Returns P m Q
      → Returns P (if b then m else k) Q
  returns_true Q true m k is hm = hm
  returns_true Q false m k is hm = absurd cc

module _ {W A B : Type 0} (P : W → Type 0) where
  pub returns_bind :
      (Q : W → A → Type 0) (R : W → B → Type 0) (m : Action W A) (f : A → Action W B)
      → Returns P m Q
      → ((a : A) → Returns (λ w. Q w a) (f a) R)
      → Returns P (m >>= f) R
  returns_bind Q R m f h k = record { at = λ w p. go (m w) (h.at w p) }
    where
      go :
          (r : W × Result A)
          → (a : A) × (r.1 ≡ ok a) × Q r.0 a
          → (b : B) × ((continue r f).1 ≡ ok b) × R (continue r f).0 b
      go (w, ok x) (a, e, q) = let same : a ≡ x = cc in (k x).at w (subst (Q w) same q)
      go (w, err x) (a, e, q) = absurd cc
      go (w, panicked) (a, e, q) = absurd cc
