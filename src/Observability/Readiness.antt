-- ===== src/Observability/Readiness.antt =====
-- When the readiness probe of the admin server answers that the service is ready.
use Prim.Native.String.{String}
use turl.Base.{
  ◌≡◌, ◌≢◌, ◌↔◌, ◌⊎◌, inl, inr, arith, refl, Bool, Bool-cases, true, false, Option, none, some,
  List, [], ◌∷◌,
}
use turl.Errors.{Error, Result, ok, err, panicked}
use turl.Action.{continue}
use turl.Observability.{
  HealthCheck, AdminServer, Answer, put, run_checks, answer_of, handle_readiness,
}

Reply-cases : (r : Result (Unit {0})) → (r ≡ ok tt) ⊎ (((e : Error) × (r ≡ err e)) ⊎ (r ≡ panicked))
Reply-cases (ok u) = inl refl
Reply-cases (err e) = inr (inl (e, refl))
Reply-cases panicked = inr (inr refl)

module _ {W : Type 0} where
  -- Run one after the other, the checks all end with nil.
  abbrev pub AllPass : List (String × HealthCheck W) → W → Type 0
  AllPass [] w = Unit
  AllPass ((name, check) ∷ checks) w = ((check w).1 ≡ ok tt) × AllPass checks (check w).0

  -- None of them panics.
  abbrev pub NoPanic : List (String × HealthCheck W) → W → Type 0
  NoPanic [] w = Unit
  NoPanic ((name, check) ∷ checks) w = ((check w).1 ≢ panicked) × NoPanic checks (check w).0

  -- An end of the loop that is ready exactly where it was before and the checks pass.
  abbrev Ends : (Bool → Type 0) → W × Result (Bool × List (String × Option Error)) → Type 0
  Ends Q end =
      (ready : Bool) × (results : List (String × Option Error)) × (end.1 ≡ ok (ready, results))
      × Q ready

  run_checks_lem :
      (checks : List (String × HealthCheck W)) (ready : Bool)
      (results : List (String × Option Error)) (w : W)
      → NoPanic checks w
      → Ends
          (λ b. (b ≡ true) ↔ ((ready ≡ true) × AllPass checks w))
          (run_checks checks ready results w)
  unfolding run_checks
  run_checks_lem [] ready results w calm = (ready, results, refl, (λ h. (h, tt), λ h. h.0))
  run_checks_lem ((name, check) ∷ checks) ready results w calm = elim (Reply-cases (check w).1) [
    | inl passes ↦
        let (ready', results', ends, iff) =
          run_checks_lem checks ready (put name none results) (check w).0 calm.1 in
        (
          ready',
          results',
          rw passes ends,
          (λ h. ((iff.0 h).0, (passes, (iff.0 h).1)), λ h. iff.1 (h.0, h.1.1)),
        )
    | inr (inl (e, fails)) ↦
        let (ready', results', ends, iff) =
          run_checks_lem checks false (put name (some e) results) (check w).0 calm.1 in
        (
          ready',
          results',
          rw fails ends,
          (λ h. let p = (iff.0 h).0 in absurd cc, λ h. let p = h.1.0 in absurd cc),
        )
    | inr (inr panics) ↦ absurd (calm.0 panics)
  ]

  -- The end of the probe from the end of its loop.
  continue-answered :
      (end : W × Result (Bool × List (String × Option Error))) (ready : Bool)
      (results : List (String × Option Error)) (a : Answer)
      → end.1 ≡ ok (ready, results)
      → ((w : W) → (answer_of (ready, results) w).1 ≡ ok a)
      → (continue end answer_of).1 ≡ ok a
  continue-answered (w, r) ready results a ends answer = rw ends (answer w)

  -- Where no check panics, the probe answers whatever the order in which the checks are read: with status
  -- 200 exactly where each check in turn ends with nil, and otherwise with status 503.
  pub handle_readiness_lem :
      (order : List (String × HealthCheck W) → List (String × HealthCheck W)) (s : AdminServer W)
      (w : W)
      → NoPanic (order s.checks) w
      → (a : Answer) × ((handle_readiness order s w).1 ≡ ok a)
        × ((a.code ≡ 200) ⊎ (a.code ≡ 503))
        × ((a.code ≡ 200) ↔ AllPass (order s.checks) w)
  unfolding handle_readiness answer_of
  handle_readiness_lem order s w calm =
      let (ready, results, ends, iff) = run_checks_lem (order s.checks) true [] w calm in
      elim (Bool-cases ready) [
        | inl e ↦ (
          record { code = 200; status = "ok"; results = results },
          continue-answered (run_checks (order s.checks) true [] w) ready results _ ends
              (λ w'. rw e refl),
          inl refl,
          (λ h. (iff.0 e).1, λ h. refl),
        )
        | inr e ↦ (
          record { code = 503; status = "unavailable"; results = results },
          continue-answered (run_checks (order s.checks) true [] w) ready results _ ends
              (λ w'. rw e refl),
          inr refl,
          (λ h. absurd (omega arith), λ h. let p = iff.1 (refl, h) in absurd cc),
        )
      ]
