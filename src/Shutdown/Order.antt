-- ===== src/Shutdown/Order.antt =====
-- A graceful shutdown takes every step.
use turl.Base.{◌≡◌, ◌≢◌, ◌∙◌, refl, List, [], ◌∷◌}
use turl.Errors.{Result, ok, err, panicked}
use turl.Shutdown.{OptionFunc, graceful_shutdown}

module _ {W : Type 0} where
  -- The world after all of the steps.
  abbrev pub after_all : List (OptionFunc W) → W → W
  after_all [] w = w
  after_all (opt ∷ opts) w = after_all opts (opt w).0

  -- No step panics, where it is taken.
  abbrev pub IsCalm : List (OptionFunc W) → W → Type 0
  IsCalm [] w = Unit
  IsCalm (opt ∷ opts) w = ((opt w).1 ≢ panicked) × IsCalm opts (opt w).0

  graceful_step :
      (r : W × Result (Unit {0})) (opt : OptionFunc W) (opts : List (OptionFunc W)) (w : W)
      → opt w ≡ r
      → r.1 ≢ panicked
      → graceful_shutdown (opt ∷ opts) w ≡ graceful_shutdown opts r.0
  unfolding graceful_shutdown
  graceful_step (w', ok u) opt opts w e calm = rw e refl
  graceful_step (w', err e') opt opts w e calm = rw e refl
  graceful_step (w', panicked) opt opts w e calm = absurd (calm refl)

  -- Where no step panics, a graceful shutdown takes all of its steps in order, each in the world that the
  -- one before left, whichever of them fail, and itself ends without an error.
  pub graceful_shutdown-after_all :
      (opts : List (OptionFunc W)) (w : W)
      → IsCalm opts w
      → graceful_shutdown opts w ≡ (after_all opts w, ok tt)
  unfolding graceful_shutdown
  graceful_shutdown-after_all [] w calm = refl
  graceful_shutdown-after_all (opt ∷ opts) w calm =
      graceful_step (opt w) opt opts w refl calm.0
      ∙ graceful_shutdown-after_all opts (opt w).0 calm.1
