-- ===== src/Action/Holds.antt =====
-- What holds in the world after a call, call by call.
use mathlib.Core.Path.{subst}
use turl.Base.{◌≡◌, refl, Bool, true, false, String, if◌then◌else◌}
use turl.Errors.{Error, Result, ok, err, panicked}
use turl.Action.{Action, pure, raise, lift, attempt, wrap, caught, continue, ◌>>=◌}

-- What holds after a call that ends with a value.
pub record Holds {W A : Type 0} (P : W → Type 0) (m : Action W A) (Q : W → A → Type 0)
    : Type 0 where
  pub at : (w : W) → P w → (a : A) → (m w).1 ≡ ok a → Q (m w).0 a

module _ {W A : Type 0} (P : W → Type 0) where
  pub holds_pure : (Q : W → A → Type 0) (a : A) → ((w : W) → P w → Q w a) → Holds P (pure a) Q
  holds_pure Q a f = record { at = λ w p b e. let same : a ≡ b = cc in subst (Q w) same (f w p) }

  pub holds_lift : (r : Result A) → Holds P (lift r) (λ w a. P w)
  holds_lift r = record { at = λ w p a e. p }

  -- A call after which a fact still holds, however the call ends.
  pub holds_kept : (m : Action W A) → ((w : W) → P w → P (m w).0) → Holds P m (λ w a. P w)
  holds_kept m f = record { at = λ w p a e. f w p }

  pub holds_wrap :
      (s : String) (m : Action W A) (Q : W → A → Type 0) → Holds P m Q → Holds P (wrap s m) Q
  holds_wrap s m Q h = record { at = λ w p. go (m w) (h.at w p) }
    where
      go :
          (r : W × Result A)
          → ((a : A) → r.1 ≡ ok a → Q r.0 a)
          → (a : A) → (wrap s (λ u. r) r.0).1 ≡ ok a
          → Q (wrap s (λ u. r) r.0).0 a
      go (w, ok x) f a e = f a e
      go (w, err x) f a e = absurd cc
      go (w, panicked) f a e = absurd cc

  pub holds_attempt :
      (m : Action W A) → ((w : W) → P w → P (m w).0) → Holds P (attempt m) (λ w a. P w)
  holds_attempt m f = record { at = λ w p. go (m w) (f w p) }
    where
      go : (r : W × Result A) → P r.0 → (a : Result A) → (caught r).1 ≡ ok a → P (caught r).0
      go (w, ok x) p a e = p
      go (w, err x) p a e = p
      go (w, panicked) p a e = p

  pub holds_raise : (Q : W → A → Type 0) (x : Error) → Holds P (raise x) Q
  holds_raise Q x = record { at = λ w p a e. absurd cc }

  pub holds_if :
      (Q : W → A → Type 0) (b : Bool) (m k : Action W A)
      → Holds P m Q
      → Holds P k Q
      → Holds P (if b then m else k) Q
  holds_if Q true m k hm hk = hm
  holds_if Q false m k hm hk = hk

module _ {W A B : Type 0} (P : W → Type 0) where
  pub holds_bind :
      (Q : W → A → Type 0) (R : W → B → Type 0) (m : Action W A) (f : A → Action W B)
      → Holds P m Q
      → ((a : A) → Holds (λ w. Q w a) (f a) R)
      → Holds P (m >>= f) R
  holds_bind Q R m f h k = record { at = λ w p. go (m w) (h.at w p) }
    where
      go :
          (r : W × Result A)
          → ((a : A) → r.1 ≡ ok a → Q r.0 a)
          → (b : B) → (continue r f).1 ≡ ok b
          → R (continue r f).0 b
      go (w, ok x) q b e = (k x).at w (q x refl) b e
      go (w, err x) q b e = absurd cc
      go (w, panicked) q b e = absurd cc

module _ {W A B C : Type 0} (P : W → Type 0) where
  -- The same for two calls and what follows them.
  pub holds_after :
      (R : W → C → Type 0) (m : Action W A) (f : A → Action W B) (k : B → Action W C)
      → Holds P (m >>= f >>= k) R
      → Holds P (m >>= λ a. f a >>= k) R
  holds_after R m f k h = record { at = λ w p. go (m w) (h.at w p) }
    where
      go :
          (r : W × Result A)
          → ((c : C) → (continue (continue r f) k).1 ≡ ok c → R (continue (continue r f) k).0 c)
          → (c : C) → (continue r (λ a. f a >>= k)).1 ≡ ok c
          → R (continue r (λ a. f a >>= k)).0 c
      go (w, ok a) q c e = q c e
      go (w, err x) q c e = absurd cc
      go (w, panicked) q c e = absurd cc
