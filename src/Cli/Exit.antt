-- ===== src/Cli/Exit.antt =====
-- The code that the program of cmd/turl/main.go exits with, by what its command did.
use Prim.Native.String.{String}
use turl.Base.{
  ℕ, ◌≡◌, ◌↔◌, ◌==◌, ==_iff, Bool-cases, inl, inr, refl, ap, ◌∙◌, Option, none, some, List,
  if◌then◌else◌,
}
use turl.Errors.{Error, Result, ok, err, panicked, unhealthy}
use turl.Action.{continue, pure, raise}
use turl.Cli.{Process, server_health}
use turl.Cli.App.{
  App, Command, Context, Urfave, Ending, exits, returns, panics, new_app, exit_of, exit_err_handler,
  main, start_command, health_command,
}

-- After a handler of exits that did not end the process, App.Run returns the error of the command.
abbrev pub run_end : {W : Type 0} → Option Error → W × Ending → W × Ending
run_end e (w, exits code) = (w, exits code)
run_end e (w, returns r) = (w, returns e)
run_end e (w, panics) = (w, panics)

-- What App.Run does with the end of a command's action.
abbrev pub after_action :
    {W : Type 0} → (Option Error → W → W × Ending) → W × Result (Unit {0}) → W × Ending
after_action handler (w, ok a) = run_end none (handler none w)
after_action handler (w, err e) = run_end (some e) (handler (some e) w)
after_action handler (w, panicked) = (w, panics)

-- What the library documents.
pub record IsUrfave {W : Type 0} (lib : Urfave W) : Type 0 where
  pub runs :
      (app : App W) (args : List String) (command : Command W) (ctx : Context) (w : W)
      → lib.parse app args ≡ some (command, ctx)
      → lib.run app args w ≡ after_action (app.exit_err_handler command.name) (command.action ctx w)
  pub no_code : (w : W) → lib.handle_exit_coder none w ≡ (w, returns none)
  pub code :
      (text : String) (code : ℕ) (w : W)
      → lib.handle_exit_coder (some (lib.exit text code)) w ≡ (w, exits code)

module _ {W D P E R T : Type 0} (p : Process W D P E R T) (lib : Urfave W)
    (failure_text : String → Error → String) (law : IsUrfave lib) where
  abbrev app : App W
  app = new_app p lib failure_text

  -- The code of a process whose command ended so.
  abbrev pub code_of : W × Result (Unit {0}) → W × Result ℕ
  code_of (w, ok a) = (w, ok 0)
  code_of (w, err e) = (w, ok 1)
  code_of (w, panicked) = (w, panicked)

  action_code :
      (name : String) (r : W × Result (Unit {0}))
      → exit_of (after_action (exit_err_handler p lib failure_text name) r) ≡ code_of r
  unfolding exit_err_handler
  action_code name (w, ok a) = rw (law.no_code w) refl
  action_code name (w, err e) = rw (law.code (failure_text name e) 1 w) refl
  action_code name (w, panicked) = refl

  -- A command that succeeds exits with 0, and one that fails with 1.
  main-command :
      (args : List String) (command : Command W) (ctx : Context) (w : W)
      → lib.parse app args ≡ some (command, ctx)
      → main p lib failure_text args w ≡ code_of (command.action ctx w)
  unfolding main new_app
  main-command args command ctx w read =
      ap exit_of (law.runs app args command ctx w read)
      ∙ action_code command.name (command.action ctx w)

  code_of_health :
      (r : W × Result ℕ)
      → ((code_of
            (continue r (λ status. if status == 200 then pure tt else raise (unhealthy status)))).1
          ≡ ok 0)
        ↔ (r.1 ≡ ok 200)
  code_of_health (w, ok status) = elim (Bool-cases (status == 200)) [
    | inl e ↦ rw e ((λ h. ap ok ((==_iff status 200).0 e)), λ h. refl)
    | inr e ↦ rw e (
      (λ h. absurd cc),
      λ h. let same : status ≡ 200 = cc in absurd (let met = (==_iff status 200).1 same in cc),
    )
  ]
  code_of_health (w, err e) = ((λ h. absurd cc), λ h. absurd cc)
  code_of_health (w, panicked) = ((λ h. absurd cc), λ h. absurd cc)

  -- With the library of commands as documented, the process of `turl health` exits with code 0 exactly
  -- where the server at the given address answers the path of the health check with status 200.
  pub main-health :
      (args : List String) (ctx : Context) (w : W)
      → lib.parse app args ≡ some (health_command p lib failure_text, ctx)
      → ((main p lib failure_text args w).1 ≡ ok 0)
        ↔ ((p.get (ctx.string "addr") "/healthcheck" w).1 ≡ ok 200)
  unfolding server_health
  main-health args ctx w read =
      rw (main-command args (health_command p lib failure_text) ctx w read)
        (code_of_health (p.get (ctx.string "addr") "/healthcheck" w))

  code_of_start : (r : W × Result (Unit {0})) → ((code_of r).1 ≡ ok 0) ↔ (r.1 ≡ ok tt)
  code_of_start (w, ok tt) = ((λ h. refl), λ h. refl)
  code_of_start (w, err e) = ((λ h. absurd cc), λ h. absurd cc)
  code_of_start (w, panicked) = ((λ h. absurd cc), λ h. absurd cc)

  -- With the library of commands as documented, the process of `turl start` exits with code 0 exactly
  -- where serverStart ends without an error, after a shutdown that met none.
  main-start :
      (args : List String) (ctx : Context) (w : W)
      → lib.parse app args ≡ some (start_command p lib failure_text, ctx)
      → ((main p lib failure_text args w).1 ≡ ok 0)
        ↔ (((start_command p lib failure_text).action ctx w).1 ≡ ok tt)
  main-start args ctx w read =
      rw (main-command args (start_command p lib failure_text) ctx w read)
        (code_of_start ((start_command p lib failure_text).action ctx w))
