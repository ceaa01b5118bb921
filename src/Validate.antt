-- ===== src/Validate.antt =====
-- pkg/validate/validate.go: the one instance of the validator that the process shares. The constructor of
-- the validator is a parameter over the state `S` of the rest of the process. A call of `once.Do` returns
-- only when its function has run, so that a call of Instance is one step for the others.
use turl.Base.{Bool, true, false, Option, none, some, List, [], ◌∷◌, if◌then◌else◌, ◌≡◌, refl, All}

-- The variables of the package: whether `once` has run its function, and `v`, none while it is nil.
pub record Globals (V : Type 0) : Type 0 where
  pub done : Bool
  pub v : Option V

module _ {S V : Type 0} (new : S → S × V) where
  -- The function of once.Do.
  abbrev fill : S × Globals V → S × Globals V
  fill (s, g) = let (s', validator) = new s in (s', record { done = true; v = some validator })

  -- Instance
  pub instance_of : S × Globals V → (S × Globals V) × Option V
  instance_of (s, g) = let after = if g.done then (s, g) else fill (s, g) in (after, after.1.v)

  -- The answers of a call after each of the steps of others, one after the other.
  pub instances : List (S → S) → S × Globals V → List (Option V)
  unfolding instance_of
  instances [] state = []
  instances (step ∷ steps) (s, g) =
      let (after, v) = instance_of (step s, g) in v ∷ instances steps after

  abbrev pub unset : Globals V
  unset = record { done = false; v = none }

  later_instances :
      (steps : List (S → S)) (s : S) (v : V)
      → All (λ o. o ≡ some v) (instances steps (s, record { done = true; v = some v }))
  unfolding instances instance_of
  later_instances [] s v = tt
  later_instances (step ∷ steps) s v = (refl, later_instances steps (step s) v)

  -- Whatever others do before and between the calls, every call answers with the validator that the first
  -- one makes.
  pub instances-same :
      (step : S → S) (steps : List (S → S)) (s : S)
      → All (λ o. o ≡ some (new (step s)).1) (instances (step ∷ steps) (s, unset))
  unfolding instances instance_of
  instances-same step steps s = (refl, later_instances steps (new (step s)).0 (new (step s)).1)
