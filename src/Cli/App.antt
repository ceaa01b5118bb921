-- ===== src/Cli/App.antt =====
-- cli/turl.go and cmd/turl/main.go: the commands of the program, and the code that it exits with. The library of
-- commands, urfave/cli, is a parameter: how it reads arguments, and what it runs.
use Prim.Native.String.{String}
use turl.Base.{ℕ, Bool, true, false, Option, none, some, List, [], ◌∷◌}
use turl.Errors.{Error, Result, ok, panicked}
use turl.Action.{Action}
use turl.Cli.{Process, server_start, server_health}

-- cli.StringFlag and cli.BoolFlag, with their names, variables of the environment and defaults
pub record FlagInfo : Type 0 where
  pub name : String
  pub usage : String
  pub aliases : List String
  pub env_vars : List String

pub data Flag : Type 0 where
  string_flag : FlagInfo → String → Flag
  bool_flag : FlagInfo → Bool → Flag

abbrev pub config_path_flag : Flag
config_path_flag =
    string_flag
      (record {
        name = "file";
        usage = "TURL Server Config File Path";
        aliases = "f" ∷ [];
        env_vars = "TURL_CONFIG_FILE" ∷ "TURL_FILE" ∷ [];
      })
      "./config.yaml"

abbrev pub readonly_flag : Flag
readonly_flag =
    bool_flag
      (record {
        name = "readonly";
        usage = "Start Server IN Read-Only Mode";
        aliases = "ro" ∷ [];
        env_vars = "TURL_READONLY" ∷ "TURL_RO" ∷ [];
      })
      false

abbrev pub debug_flag : Flag
debug_flag =
    bool_flag
      (record {
        name = "debug";
        usage = "Enable Debug Mode";
        aliases = "d" ∷ [];
        env_vars = "TURL_DEBUG" ∷ [];
      })
      false

abbrev pub default_server_addr : String
default_server_addr = "localhost:8080"

-- cli.Context: the values of the flags by name.
pub record Context : Type 0 where
  pub string : String → String
  pub bool : String → Bool

pub record Command (W : Type 0) : Type 0 where
  pub name : String
  pub usage : String
  pub action : Context → Action W (Unit {0})
  pub flags : List Flag

-- How a call ends that may end the process.
pub data Ending : Type 0 where
  exits : ℕ → Ending
  returns : Option Error → Ending
  panics : Ending

pub record App (W : Type 0) : Type 0 where
  pub name : String
  pub enable_bash_completion : Bool
  pub hide_version : Bool
  pub version : String
  pub exit_err_handler : String → Option Error → W → W × Ending
  pub commands : List (Command W)
  pub flags : List Flag

-- The library: what it reads in the arguments, App.Run, cli.Exit, and HandleExitCoder, which looks for an
-- error with a code.
pub record Urfave (W : Type 0) : Type 1 where
  pub Coded : Type 0
  pub parse : App W → List String → Option (Command W × Context)
  pub run : App W → List String → W → W × Ending
  pub exit : String → ℕ → Coded
  pub handle_exit_coder : Option Coded → W → W × Ending

-- The version, where the linker sets no other.
abbrev pub version : String
version = "v0.0.0"

abbrev pub exit_code_ok : ℕ
exit_code_ok = 0

abbrev pub exit_code_error : ℕ
exit_code_error = 1

-- main, after App.Run: the code that the process exits with, unless it panics.
abbrev pub exit_of : {W : Type 0} → W × Ending → W × Result ℕ
exit_of (w, exits code) = (w, ok code)
exit_of (w, returns none) = (w, ok exit_code_ok)
exit_of (w, returns (some e)) = (w, ok exit_code_error)
exit_of (w, panics) = (w, panicked)

module _ {W D P E R T : Type 0} (p : Process W D P E R T) (lib : Urfave W)
    (failure_text : String → Error → String) where
  -- ExitErrHandler
  unfoldable pub exit_err_handler : String → Option Error → W → W × Ending
  exit_err_handler full_name none = lib.handle_exit_coder none
  exit_err_handler full_name (some e) =
      lib.handle_exit_coder (some (lib.exit (failure_text full_name e) exit_code_error))

  abbrev pub start_command : Command W
  start_command = record {
    name = "start";
    usage = "Start HTTP Server";
    action = λ ctx. server_start p (record {
      file = ctx.string "file";
      readonly = ctx.bool "readonly";
      debug = ctx.bool "debug";
    });
    flags = config_path_flag ∷ readonly_flag ∷ debug_flag ∷ [];
  }

  abbrev pub health_command : Command W
  health_command = record {
    name = "health";
    usage = "Server Healthcheck";
    action = λ ctx. server_health p (ctx.string "addr");
    flags = [];
  }

  -- New
  unfoldable pub new_app : App W
  unfolding exit_err_handler
  new_app = record {
    name = "turl";
    enable_bash_completion = true;
    hide_version = false;
    version = version;
    exit_err_handler = exit_err_handler;
    commands = start_command ∷ health_command ∷ [];
    flags =
        string_flag
          (record {
            name = "address";
            usage = "turl server address, format as: ip:port";
            aliases = "addr" ∷ [];
            env_vars = [];
          })
          default_server_addr
        ∷ [];
  }

  -- main
  unfoldable pub main : List String → Action W ℕ
  unfolding new_app
  main args w = exit_of (lib.run new_app args w)
