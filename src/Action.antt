-- ===== src/Action.antt =====
-- Calls that change the world outside the program, a state `W`, and end with a value, an error or a
-- panic. What was changed before an error or a panic stays changed.
pub mod Gives
pub mod Holds
pub mod Returns
use turl.Base.{String}
use turl.Errors.{Error, Result, ok, err, panicked, wrapped}

abbrev pub Action : Type 0 → Type 0 → Type 0
Action W A = W → W × Result A

module _ {W A : Type 0} where
  abbrev pub pure : A → Action W A
  pure a w = (w, ok a)

  abbrev pub raise : Error → Action W A
  raise e w = (w, err e)

  abbrev pub panic : Action W A
  panic w = (w, panicked)

  abbrev pub lift : Result A → Action W A
  lift r w = (w, r)

  -- A call whose error the caller looks at; a panic still ends the caller.
  abbrev pub caught : W × Result A → W × Result (Result A)
  caught (w, ok a) = (w, ok (ok a))
  caught (w, err e) = (w, ok (err e))
  caught (w, panicked) = (w, panicked)

  abbrev pub attempt : Action W A → Action W (Result A)
  attempt m w = caught (m w)

  -- fmt.Errorf("...: %w", err)
  abbrev wrap_reply : String → W × Result A → W × Result A
  wrap_reply s (w, ok a) = (w, ok a)
  wrap_reply s (w, err e) = (w, err (wrapped s e))
  wrap_reply s (w, panicked) = (w, panicked)

  abbrev pub wrap : String → Action W A → Action W A
  wrap s m w = wrap_reply s (m w)

module _ {W A B : Type 0} where
  abbrev pub continue : W × Result A → (A → Action W B) → W × Result B
  continue (w, ok a) f = f a w
  continue (w, err e) f = (w, err e)
  continue (w, panicked) f = (w, panicked)

  infixl 5 ◌>>=◌ ◌>>◌
  abbrev pub ◌>>=◌ : Action W A → (A → Action W B) → Action W B
  ◌>>=◌ m f w = continue (m w) f

  abbrev pub ◌>>◌ : Action W A → Action W B → Action W B
  m >> k = m >>= λ _. k
