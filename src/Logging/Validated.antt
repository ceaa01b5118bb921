-- ===== src/Logging/Validated.antt =====
-- The logger of a configuration that Validate accepts.
use Prim.Native.String.{String}
use text.Mathlib.Text
use mathlib.Core.Path.{subst}
use turl.Base.{◌≡◌, ◌≢◌, inl, inr, refl, ap, some, List, suc, [], ◌∷◌, All, length, if◌then◌else◌}
use turl.Errors.{Result, ok}
use turl.Config.{
  ServerConfig, LogConfig, FileConfig, output_file, validate, encoder_type_text, encoder_type_json,
}
use turl.Config.Validation.{IsWriter, IsFormat, IsLog, validate_iff}
use turl.Logging.{
  Writer, rotating, console, LogHandler, Encoder, text_encoder, json_encoder, get_writers,
  get_log_handler, level_of, new_logger,
}

-- A file writer whose name is empty would write below the directory of temporary files.
abbrev pub IsNamed : Writer → Type 0
IsNamed console = Unit
IsNamed (rotating f) = f.filepath ≢ ""

abbrev pub IsEncoding : Encoder → String → Type 0
IsEncoding text_encoder format = format ≡ encoder_type_text
IsEncoding json_encoder format = format ≡ encoder_type_json

-- A logger that writes to each place that the configuration lists, in its format.
pub record IsLogger (c : LogConfig) (h : LogHandler) : Type 0 where
  pub each_writer : length h.writers ≡ length c.writers
  pub named : All IsNamed h.writers
  pub encoding : IsEncoding h.encoder c.format

length-get_writers : (f : FileConfig) (vs : List String) → length (get_writers f vs) ≡ length vs
unfolding get_writers
length-get_writers f [] = refl
length-get_writers f (v ∷ vs) = ap suc (length-get_writers f vs)

writer-IsNamed :
    (f : FileConfig) (v : String)
    → IsWriter f v
    → IsNamed (if Text.◌==◌ v output_file then rotating f else console)
writer-IsNamed f v (inl e) = rw e tt
writer-IsNamed f v (inr (e, named)) = rw e named

get_writers-IsNamed :
    (f : FileConfig) (vs : List String) → All (IsWriter f) vs → All IsNamed (get_writers f vs)
unfolding get_writers
get_writers-IsNamed f [] a = tt
get_writers-IsNamed f (v ∷ vs) a = (writer-IsNamed f v a.0, get_writers-IsNamed f vs a.1)

abbrev made : Encoder → LogConfig → LogHandler
made e c = record {
  encoder = e;
  writers = get_writers c.file_config c.writers;
  level = level_of c.level;
  add_source = c.add_source;
}

made-IsLogger :
    (e : Encoder) (c : LogConfig)
    → All (IsWriter c.file_config) c.writers
    → IsEncoding e c.format
    → IsLogger c (made e c)
made-IsLogger e c writers encoding = record {
  each_writer = length-get_writers c.file_config c.writers;
  named = get_writers-IsNamed c.file_config c.writers writers;
  encoding = encoding;
}

new_logger-IsLogger :
    (c : LogConfig)
    → All (IsWriter c.file_config) c.writers
    → IsFormat c.format
    → (h : LogHandler) × (new_logger c ≡ ok h) × IsLogger c h
unfolding new_logger get_log_handler
new_logger-IsLogger c writers (inl e) =
    (made text_encoder c, rw e refl, made-IsLogger text_encoder c writers e)
new_logger-IsLogger c writers (inr e) =
    (made json_encoder c, rw e refl, made-IsLogger json_encoder c writers e)

-- For a configuration that Validate accepts, with any validator of the struct tags, NewLogger makes a
-- logger: it has one writer for each entry of the log configuration, no file among them without a
-- name, and its encoding is the configured format.
validate-new_logger :
    (struct : ServerConfig → Result (Unit {0})) (c : ServerConfig) (log : LogConfig)
    → c.log ≡ some log
    → validate struct c ≡ ok tt
    → (h : LogHandler) × (new_logger log ≡ ok h) × IsLogger log h
validate-new_logger struct c log e valid =
    let a = subst IsLog e ((validate_iff struct c).0 valid).1.logged in
    new_logger-IsLogger log a.0 a.1
