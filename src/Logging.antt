-- ===== src/Logging.antt =====
-- pkg/log: the logger that a log configuration asks for.
pub mod Validated
pub mod Trace
use Prim.Native.String.{String}
use text.Mathlib.Text
use turl.Base.{Bool, List, [], ◌∷◌, if◌then◌else◌}
use turl.Base.Int.{ℤ, pos, negsuc}
use turl.Errors.{Result, ok, err, unknown_log_format}
use turl.Config.{LogConfig, FileConfig, output_file, encoder_type_text, encoder_type_json}

-- os.Stdout, or a rotating file.
pub data Writer : Type 0 where
  console : Writer
  rotating : FileConfig → Writer

-- slog's text or JSON handler behind the trace handler, over its writers, with its level and the choice
-- to name the source.
pub data Encoder : Type 0 where
  text_encoder json_encoder : Encoder

pub record LogHandler : Type 0 where
  pub encoder : Encoder
  pub writers : List Writer
  pub level : ℤ
  pub add_source : Bool

-- The loop of getWriters: what is no file goes to the console.
unfoldable pub get_writers : FileConfig → List String → List Writer
get_writers f [] = []
get_writers f (v ∷ vs) =
    (if Text.◌==◌ v output_file then rotating f else console) ∷ get_writers f vs

-- configs.Levels, which gives the level of info for a name that it does not have.
unfoldable pub level_of : String → ℤ
level_of name =
    if Text.◌==◌ name "debug"
    then negsuc 3
    else if Text.◌==◌ name "warn"
    then pos 4
    else if Text.◌==◌ name "error"
    then pos 8
    else pos 0

-- getLogHandler
unfoldable pub get_log_handler : List Writer → LogConfig → Result LogHandler
unfolding level_of
get_log_handler writers c =
    let made : Encoder → LogHandler = λ e. record {
      encoder = e;
      writers = writers;
      level = level_of c.level;
      add_source = c.add_source;
    } in
    if Text.◌==◌ c.format encoder_type_text
    then ok (made text_encoder)
    else if Text.◌==◌ c.format encoder_type_json
    then ok (made json_encoder)
    else err unknown_log_format

-- NewLogger
unfoldable pub new_logger : LogConfig → Result LogHandler
unfolding get_writers get_log_handler
new_logger c = get_log_handler (get_writers c.file_config c.writers) c
