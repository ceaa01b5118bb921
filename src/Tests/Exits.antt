-- ===== src/Tests/Exits.antt =====
-- A library of commands in memory, which takes the second argument for the name of a command.
use Prim.Native.String.{String}
use text.Mathlib.Text
use turl.Base.{ℕ, ◌≡◌, ◌↔◌, refl, ap, false, Option, none, some, List, [], ◌∷◌, if◌then◌else◌}
use turl.Errors.{Error, ok}
use turl.Cli.App.{
  App, Command, Context, Urfave, Ending, exits, returns, new_app, main, health_command,
}
use turl.Cli.Exit.{after_action, IsUrfave, main-health}
use turl.Tests.Start.{process}

abbrev context : Context
context = record {
  string = λ name. if Text.◌==◌ name "addr" then "localhost:8080" else "./config.yaml";
  bool = λ name. false;
}

abbrev find : String → List (Command ℕ) → Option (Command ℕ × Context)
find name [] = none
find name (c ∷ cs) = if Text.◌==◌ name c.name then some (c, context) else find name cs

abbrev read_args : List String → List (Command ℕ) → Option (Command ℕ × Context)
read_args (program ∷ name ∷ rest) cs = find name cs
read_args _ cs = none

abbrev ran : App ℕ → Option (Command ℕ × Context) → ℕ → ℕ × Ending
ran app none w = (w, returns none)
ran app (some (c, ctx)) w = after_action (app.exit_err_handler c.name) (c.action ctx w)

abbrev coded : Option ℕ → ℕ → ℕ × Ending
coded none w = (w, returns none)
coded (some n) w = (w, exits n)

abbrev library : Urfave ℕ
library = record {
  Coded = ℕ;
  parse = λ app args. read_args args app.commands;
  run = λ app args. ran app (read_args args app.commands);
  exit = λ text code. code;
  handle_exit_coder = coded;
}

library-IsUrfave : IsUrfave library
library-IsUrfave = record {
  runs = λ app args command ctx w e. ap (λ found. ran app found w) e;
  no_code = λ w. refl;
  code = λ text code w. refl;
}

abbrev arguments : List String
arguments = "turl" ∷ "health" ∷ []

abbrev text_of : String → Error → String
text_of name e = name

health_read :
    library.parse (new_app process library text_of) arguments
    ≡ some (health_command process library text_of, context)
unfolding new_app
health_read = refl

main-health_example :
    ((main process library text_of arguments 0).1 ≡ ok 0)
    ↔ ((process.get "localhost:8080" "/healthcheck" 0).1 ≡ ok 200)
main-health_example =
    main-health process library text_of library-IsUrfave arguments context 0 health_read
