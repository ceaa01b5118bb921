-- ===== src/Config/Validation.antt =====
-- What Validate of configs accepts, and what the rest of the program gets from it.
-- The message about the request timeout says that it should be greater than 1s, and the comment on Format
-- names console; Validate takes a timeout of 1s, and text in place of console.
use Prim.Native.String.{String}
use text.Mathlib.Text
use text.Mathlib.TextEquality.{eq_iff}
use turl.Base.{arith, ◌≡◌, ◌≢◌, ◌↔◌, ◌⊎◌, refl, false, Option, some, none, List, [], ◌∷◌, All}
use turl.Base.Int.{pos, ◌≤ℤ◌}
use turl.Errors.{Result, ok, err, panicked, ◌>>=◌, ◌>>◌, follow}
use turl.Expiry.{Duration}
use turl.Config.{
  ServerConfig, LogConfig, FileConfig, output_console, output_file, encoder_type_text,
  encoder_type_json, check_writer, check_writers, check_format, check_timeout, validate,
}

-- A writer of the log that the configuration describes fully.
abbrev pub IsWriter : FileConfig → String → Type 0
IsWriter f v = (v ≡ output_console) ⊎ ((v ≡ output_file) × (f.filepath ≢ ""))

abbrev pub IsFormat : String → Type 0
IsFormat format = (format ≡ encoder_type_text) ⊎ (format ≡ encoder_type_json)

abbrev pub IsLog : Option LogConfig → Type 0
IsLog none = ⊥
IsLog (some log) = All (IsWriter log.file_config) log.writers × IsFormat log.format

-- What the configuration of the server must have for Validate to accept it, next to its struct tags.
pub record IsValid (c : ServerConfig) : Type 0 where
  pub timeout : pos 1000000000 ≤ℤ c.request_timeout
  pub logged : IsLog c.log

-- A sequence of checks succeeds where each of them does.
>>-ok {ℓ} :
    {B : Type ℓ} (m : Result (Unit {0})) (k : Result B) (b : B)
    → (m >> k ≡ ok b) ↔ ((m ≡ ok tt) × (k ≡ ok b))
>>-ok (ok tt) k b = (λ h. (refl, h), λ h. h.1)
>>-ok (err e) k b = (λ h. absurd cc, λ h. absurd cc)
>>-ok panicked k b = (λ h. absurd cc, λ h. absurd cc)

console-file : (v : String) → v ≡ output_console → Text.◌==◌ v output_file ≡ false
console-file v e = rw e refl

check_writer_lem : (f : FileConfig) (v : String) → (check_writer f v ≡ ok tt) ↔ IsWriter f v
unfolding check_writer
check_writer_lem f v =
    ground
      (arith, console-file v, eq_iff v output_console, eq_iff v output_file, eq_iff f.filepath "")

check_writers_lem :
    (f : FileConfig) (vs : List String) → (check_writers f vs ≡ ok tt) ↔ All (IsWriter f) vs
unfolding check_writers
check_writers_lem f [] = (λ h. tt, λ a. refl)
check_writers_lem f (v ∷ vs) =
    let (split, joined) = >>-ok (check_writer f v) (check_writers f vs) tt in
    let (writer, writer_ok) = check_writer_lem f v in
    let (others, others_ok) = check_writers_lem f vs in
    (λ h. (writer (split h).0, others (split h).1), λ a. joined (writer_ok a.0, others_ok a.1))

check_format_lem : (format : String) → (check_format format ≡ ok tt) ↔ IsFormat format
unfolding check_format
check_format_lem format =
    ground (arith, eq_iff format encoder_type_text, eq_iff format encoder_type_json)

check_timeout_lem : (t : Duration) → (check_timeout t ≡ ok tt) ↔ (pos 1000000000 ≤ℤ t)
unfolding check_timeout
check_timeout_lem t = ground (arith)

log_lem :
    (o : Option LogConfig)
    → ((follow o >>= λ log. check_writers log.file_config log.writers >> check_format log.format)
        ≡ ok tt)
      ↔ IsLog o
log_lem none = (λ h. absurd cc, λ h. absurd h)
log_lem (some log) =
    let (split, joined) =
      >>-ok (check_writers log.file_config log.writers) (check_format log.format) tt in
    let (writers, writers_ok) = check_writers_lem log.file_config log.writers in
    let (format, format_ok) = check_format_lem log.format in
    (λ h. (writers (split h).0, format (split h).1), λ a. joined (writers_ok a.0, format_ok a.1))

abbrev log_checks : ServerConfig → Result (Unit {0})
log_checks c = do
  log ← follow c.log
  check_writers log.file_config log.writers
  check_format log.format

abbrev checks : ServerConfig → Result (Unit {0})
checks c = check_timeout c.request_timeout >> log_checks c

pub validate_iff :
    (struct : ServerConfig → Result (Unit {0})) (c : ServerConfig)
    → (validate struct c ≡ ok tt) ↔ ((struct c ≡ ok tt) × IsValid c)
unfolding validate
validate_iff struct c =
    let (split, joined) = >>-ok (struct c) (checks c) tt in
    let (split', joined') = >>-ok (check_timeout c.request_timeout) (log_checks c) tt in
    let (timeout, timeout_ok) = check_timeout_lem c.request_timeout in
    let (logged, logged_ok) = log_lem c.log in
    (
      λ h. (
        (split h).0,
        record { timeout = timeout (split' (split h).1).0; logged = logged (split' (split h).1).1 },
      ),
      λ v. joined (v.0, joined' (timeout_ok v.1.timeout, logged_ok v.1.logged)),
    )
