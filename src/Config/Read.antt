-- ===== src/Config/Read.antt =====
-- configs/read.go: the configuration of a file and of the flags. koanf, whose one instance keeps what it
-- has loaded, is a parameter.
use Prim.Native.String.{String}
use text.Mathlib.Text
use turl.Base.{◌≡◌, refl, ◌∙◌, Bool, true, Option, none, some, List, [], ◌∷◌, if◌then◌else◌}
use turl.Errors.{Result, ok, err, panicked}
use turl.Action.{Action, continue, ◌>>◌}
use turl.Action.Gives.{Gives}
use turl.Config.{ServerConfig}

-- Load of a file as YAML and of a map, what Sprint puts on the standard output, and UnmarshalWithConf.
pub record Koanf (W : Type 0) : Type 0 where
  pub load_file : String → Action W (Unit {0})
  pub load_map : List (String × Bool) → Action W (Unit {0})
  pub print : W → W
  pub unmarshal : Action W ServerConfig

module _ {W : Type 0} (k : Koanf W) where
  -- ReadFile
  unfoldable pub read_file : String → List (String × Bool) → Action W ServerConfig
  read_file path mp = do k.load_file path; k.load_map mp; (λ w. (k.print w, ok tt)); k.unmarshal

-- The value that a map gives to a key.
abbrev pub given_to : String → List (String × Bool) → Option Bool
given_to key [] = none
given_to key ((name, b) ∷ rest) = if Text.◌==◌ name key then some b else given_to key rest

-- What koanf documents: what is loaded later wins, and a field takes the value of its key.
pub record IsKoanf {W : Type 0} (k : Koanf W) : Type 0 where
  -- The value of the key `readonly` in what is loaded.
  pub value : W → Option Bool
  pub loaded :
      (mp : List (String × Bool)) (b : Bool) (w : W)
      → given_to "readonly" mp ≡ some b
      → (k.load_map mp w).1 ≡ ok tt
      → value (k.load_map mp w).0 ≡ some b
  pub printed : (w : W) → value (k.print w) ≡ value w
  pub readonly :
      (w : W) (c : ServerConfig) (b : Bool)
      → (k.unmarshal w).1 ≡ ok c
      → value w ≡ some b
      → c.readonly ≡ b

module _ {W : Type 0} (k : Koanf W) (law : IsKoanf k) where
  read_end :
      (mp : List (String × Bool)) (r : W × Result (Unit {0})) (c : ServerConfig)
      → (r.1 ≡ ok tt → law.value r.0 ≡ some true)
      → (continue r (λ u w. k.unmarshal (k.print w))).1 ≡ ok c
      → c.readonly ≡ true
  read_end mp (w, ok tt) c found h = law.readonly (k.print w) c true h (law.printed w ∙ found refl)
  read_end mp (w, err e) c found h = absurd cc
  read_end mp (w, panicked) c found h = absurd cc

  read_begin :
      (rest : List (String × Bool)) (r : W × Result (Unit {0})) (c : ServerConfig)
      → (continue r (λ u w'.
          continue (k.load_map (("readonly", true) ∷ rest) w') (λ u' w. k.unmarshal (k.print w)))).1
        ≡ ok c
      → c.readonly ≡ true
  read_begin rest (w, ok tt) c h =
      let mp : List (String × Bool) = ("readonly", true) ∷ rest in
      read_end mp (k.load_map mp w) c (law.loaded mp true w refl) h
  read_begin rest (w, err e) c h = absurd cc
  read_begin rest (w, panicked) c h = absurd cc

  -- A flag for read-only mode wins over the file.
  pub read_file-readonly :
      (path : String) (rest : List (String × Bool))
      → Gives (read_file k path (("readonly", true) ∷ rest)) (λ c. c.readonly ≡ true)
  unfolding read_file
  read_file-readonly path rest w c h = read_begin rest (k.load_file path w) c h
