-- ===== src/Action/Gives.antt =====
-- What a call gives where it ends with a value, call by call.
use mathlib.Core.Path.{subst, fun_ext}
use turl.Base.{
  ◌≡◌, ◌≢◌, ◌⊎◌, inl, inr, refl, ap, Option, none, some, Bool, true, false, if◌then◌else◌,
}
use turl.Errors.{Error, Result, ok, err, panicked, follow}
use turl.Action.{Action, attempt, pure, continue, raise, lift, ◌>>=◌}

abbrev value_or : {A : Type 0} → A → Result A → A
value_or a (ok b) = b
value_or a (err e) = a
value_or a panicked = a

module _ {W A : Type 0} where
  -- Each value with which the call ends has the property.
  abbrev pub Gives {ℓ} : Action W A → (A → Type ℓ) → Type ℓ
  Gives m Q = (w : W) (a : A) → (m w).1 ≡ ok a → Q a

  -- What a call ends with in some world.
  abbrev pub Made : Action W A → A → Type 0
  Made m a = (w : W) × ((m w).1 ≡ ok a)

  pub gives-Made : (m : Action W A) → Gives m (Made m)
  gives-Made m w a h = (w, h)

  pub gives-raise {ℓ} : (Q : A → Type ℓ) (e : Error) → Gives (raise e) Q
  gives-raise Q e w a h = absurd cc

  pub gives-mono {ℓ κ} :
      {P : A → Type ℓ} {Q : A → Type κ} (m : Action W A)
      → ((a : A) → P a → Q a)
      → Gives m P
      → Gives m Q
  gives-mono m f g w a h = f a (g w a h)

  pub gives-pure {ℓ} : (Q : A → Type ℓ) (a : A) → Q a → Gives (pure a) Q
  gives-pure Q a q w b h = subst Q (ap (value_or a) h) q

  pub followed : (o : Option A) → Gives (lift (follow o)) (λ a. o ≡ some a)
  followed none w a h = absurd cc
  followed (some b) w a h = ap (λ r. some (value_or b r)) h

  pub gives-if {ℓ} :
      (Q : A → Type ℓ) (b : Bool) (m k : Action W A)
      → (b ≡ true → Gives m Q)
      → (b ≡ false → Gives k Q)
      → Gives (if b then m else k) Q
  gives-if Q true m k gm gk = gm refl
  gives-if Q false m k gm gk = gk refl

module _ {W A B : Type 0} where
  pub continue-gives {ℓ κ} :
      {P : A → Type ℓ} {Q : B → Type κ} (r : W × Result A) (f : A → Action W B)
      → ((a : A) → r.1 ≡ ok a → P a)
      → ((a : A) → P a → Gives (f a) Q)
      → (b : B) → (continue r f).1 ≡ ok b
      → Q b
  continue-gives (w, ok a) f p q b h = q a (p a refl) w b h
  continue-gives (w, err e) f p q b h = absurd cc
  continue-gives (w, panicked) f p q b h = absurd cc

  pub gives-bind {ℓ κ} :
      {P : A → Type ℓ} {Q : B → Type κ} (m : Action W A) (f : A → Action W B)
      → Gives m P
      → ((a : A) → P a → Gives (f a) Q)
      → Gives (m >>= f) Q
  gives-bind m f p q w b h = continue-gives (m w) f (p w) q b h

  pub gives-after {κ} :
      {Q : B → Type κ} (m : Action W A) (f : A → Action W B)
      → ((a : A) → Gives (f a) Q)
      → Gives (m >>= f) Q
  gives-after m f q w b h = continue-gives {P = λ a. Unit {0}} (m w) f (λ a e. tt) (λ a t. q a) b h

pub panicked_or_not : {A : Type 0} (r : Result A) → (r ≡ panicked) ⊎ (r ≢ panicked)
panicked_or_not (ok a) = inr (λ e. absurd cc)
panicked_or_not (err x) = inr (λ e. absurd cc)
panicked_or_not panicked = inl refl

-- What follows a call, by how the call ended.
module _ {W A B : Type 0} where
  pub continue_ok :
      (r : W × Result A) (f : A → Action W B) (a : A) → r.1 ≡ ok a → continue r f ≡ f a r.0
  continue_ok (w, ok b) f a e = let same : b ≡ a = cc in ap (λ x. f x w) same
  continue_ok (w, err x) f a e = absurd cc
  continue_ok (w, panicked) f a e = absurd cc

  pub continue_err :
      (r : W × Result A) (f : A → Action W B) (x : Error)
      → r.1 ≡ err x
      → continue r f ≡ (r.0, err x)
  continue_err (w, ok b) f x e = absurd cc
  continue_err (w, err y) f x e = cc
  continue_err (w, panicked) f x e = absurd cc

  pub continue_panicked :
      (r : W × Result A) (f : A → Action W B) → r.1 ≡ panicked → continue r f ≡ (r.0, panicked)
  continue_panicked (w, ok b) f e = absurd cc
  continue_panicked (w, err y) f e = absurd cc
  continue_panicked (w, panicked) f e = refl

  -- What follows a call whose error is looked at, where it panics.
  pub continue_failed :
      (r : W × Result A) (f : Action W B)
      → r.1 ≡ panicked
      → continue (attempt (λ w. r) r.0) (λ reply. f) ≡ (r.0, panicked)
  continue_failed (w, ok a) f e = absurd cc
  continue_failed (w, err x) f e = absurd cc
  continue_failed (w, panicked) f e = refl

  -- What follows a call whose error is looked at, where it does not panic and the reply is not used.
  pub continue_tried :
      (r : W × Result A) (f : Action W B)
      → r.1 ≢ panicked
      → continue (attempt (λ w. r) r.0) (λ reply. f) ≡ f r.0
  continue_tried (w, ok a) f calm = refl
  continue_tried (w, err e) f calm = refl
  continue_tried (w, panicked) f calm = absurd (calm refl)

-- Two ways to go on after a call that agree on each value that the call gives.
module _ {W A B : Type 0} where
  pub continue-same {ℓ} :
      {P : A → Type ℓ} (r : W × Result A) (f g : A → Action W B)
      → ((a : A) → r.1 ≡ ok a → P a)
      → ((a : A) → P a → f a ≡ g a)
      → continue r f ≡ continue r g
  continue-same (w, ok a) f g gives same = ap (λ m. m w) (same a (gives a refl))
  continue-same (w, err e) f g gives same = refl
  continue-same (w, panicked) f g gives same = refl

  pub bind-same {ℓ} :
      {P : A → Type ℓ} (m : Action W A) (f g : A → Action W B)
      → Gives m P
      → ((a : A) → P a → f a ≡ g a)
      → (m >>= f) ≡ (m >>= g)
  bind-same m f g gives same = fun_ext (λ w. continue-same (m w) f g (gives w) same)

  pub bind-same_after :
      (m : Action W A) (f g : A → Action W B) → ((a : A) → f a ≡ g a) → (m >>= f) ≡ (m >>= g)
  bind-same_after m f g same = bind-same {P = λ a. Unit {0}} m f g (λ w a h. tt) (λ a t. same a)
