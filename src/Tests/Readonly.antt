-- ===== src/Tests/Readonly.antt =====
-- A koanf in memory, over a world of which 1 and 2 stand for the two values of the key `readonly`.
use turl.Base.{
  ℕ, ◌+◌, ◌≡◌, refl, sym, ap, ◌∙◌, Bool, true, false, Option, none, some, ◌==◌, if◌then◌else◌,
}
use turl.Errors.{ok, panicked}
use turl.Action.{pure}
use turl.Config.Read.{Koanf, given_to, read_file, IsKoanf}
use turl.Cli.{Process, Flags, server_start}
use turl.Cli.Readonly.{altered, server_start-readonly}
use turl.Tests.Start.{process, config}

abbrev code : Option Bool → ℕ → ℕ
code none w = w
code (some true) w = 1
code (some false) w = 2

abbrev value : ℕ → Option Bool
value n = if n == 1 then some true else if n == 2 then some false else none

abbrev or_false : Option Bool → Bool
or_false none = false
or_false (some b) = b

abbrev koanf : Koanf ℕ
koanf = record {
  load_file = λ path. pure tt;
  load_map = λ mp w. (code (given_to "readonly" mp) w, ok tt);
  print = λ w. w;
  unmarshal = λ w. (w, ok (record config { readonly = or_false (value w) }));
}

value-code : (b : Bool) (w : ℕ) → value (code (some b) w) ≡ some b
value-code true w = refl
value-code false w = refl

koanf-IsKoanf : IsKoanf koanf
koanf-IsKoanf = record {
  value = value;
  loaded = λ mp b w given done. rw given (value-code b w);
  printed = λ w. refl;
  readonly = λ w c b h e.
      let same : record config { readonly = or_false (value w) } ≡ c = cc in
      let field : c.readonly ≡ or_false (value w) = ap (λ d. d.readonly) (sym same) in
      field ∙ ap or_false e;
}

abbrev reading : Process ℕ ℕ ℕ ℕ ℕ ℕ
reading = record process { read_file = read_file koanf }

abbrev flags : Flags
flags = record { file = "config.yaml"; readonly = true; debug = false }

server_start-readonly_example :
    server_start
      (record reading {
        packages =
            altered reading.packages
              (λ d w. (w + 1, panicked))
              (λ d c w. (w + 2, panicked))
              (λ parts w. (w + 3, panicked));
      })
      flags
      0
    ≡ server_start reading flags 0
server_start-readonly_example =
    server_start-readonly reading koanf koanf-IsKoanf (λ d w. (w + 1, panicked))
      (λ d c w. (w + 2, panicked)) (λ parts w. (w + 3, panicked)) flags 0 refl refl
