-- ===== src/Server.antt =====
-- The environment that the server reads: envInt, envBool and setupLogger of logging.go, and the
-- configuration that startRiver of cmdriver.go makes of it.
pub mod Settings
pub mod Startup
pub mod Process
mod Examples
use gua.Base.{
  ℕ, ◌-◌, Bool, true, false, ◌||◌, Option, none, some, List, [], ◌∷◌, ◌++◌, Text, codes, ◌=t◌,
  if◌then◌else◌,
}
use gua.Base.Int.{ℤ, pos}
use gua.Base.Strings.{trim_space, to_lower, atoi}
use gua.Queue.Config.{RiverConfig, seconds_duration}

-- `os.Getenv`: nothing where the variable is not set.
abbrev pub Env : Type 0
Env = Text → Text

-- `strconv.ParseBool`.
pub parse_bool : Text → Option Bool
parse_bool s =
    if s =t codes "1"
      || s =t codes "t"
      || s =t codes "T"
      || s =t codes "TRUE"
      || s =t codes "true"
      || s =t codes "True"
    then some true
    else if s =t codes "0"
        || s =t codes "f"
        || s =t codes "F"
        || s =t codes "FALSE"
        || s =t codes "false"
        || s =t codes "False"
    then some false
    else none

abbrev pub or_given : {A : Type 0} → A → Option A → A
or_given default none = default
or_given default (some a) = a

pub env_int : Env → Text → ℤ → ℤ
env_int env key default =
    let v = trim_space (env key) in if v =t [] then default else or_given default (atoi v)

pub env_bool : Env → Text → Bool → Bool
env_bool env key default =
    let v = trim_space (env key) in if v =t [] then default else or_given default (parse_bool v)

pub data Level : Type 0 where
  debug info warn error : Level

pub data Format : Type 0 where
  json_format text_format : Format

-- The settings of lumberjack.
pub record Rotated : Type 0 where
  pub filename : Text
  pub max_size : ℤ
  pub max_backups : ℤ
  pub max_age : ℤ
  pub compress : Bool

pub data Writer : Type 0 where
  stdout : Writer
  rotated : Rotated → Writer

pub record Logger : Type 0 where
  pub writers : List Writer
  pub level : Level
  pub format : Format

abbrev lowered : Env → Text → Text
lowered env key = to_lower (trim_space (env key))

-- LOG_OUTPUT, and the path of the file.
pub log_output : Env → Text
log_output env =
    let out = lowered env (codes "LOG_OUTPUT") in if out =t [] then codes "stdout" else out

pub log_file : Env → Text
log_file env =
    let path = trim_space (env (codes "LOG_FILE")) in if path =t [] then codes "gua.log" else path

abbrev log_rotated : Env → Rotated
log_rotated env = record {
  filename = log_file env;
  max_size = env_int env (codes "LOG_ROTATE_MAX_SIZE_MB") (pos 100);
  max_backups = env_int env (codes "LOG_ROTATE_MAX_BACKUPS") (pos 7);
  max_age = env_int env (codes "LOG_ROTATE_MAX_AGE_DAYS") (pos 30);
  compress = env_bool env (codes "LOG_ROTATE_COMPRESS") false;
}

abbrev or_stdout : List Writer → List Writer
or_stdout [] = stdout ∷ []
or_stdout (w ∷ ws) = w ∷ ws

pub log_writers : Env → List Writer
log_writers env =
    let out = log_output env in
    or_stdout (
      (if out =t codes "stdout" || out =t codes "both" then stdout ∷ [] else [])
      ++ (if out =t codes "file" || out =t codes "both"
          then rotated (log_rotated env) ∷ []
          else []))

pub log_level : Text → Level
log_level l =
    if l =t codes "debug"
    then debug
    else if l =t codes "warn" || l =t codes "warning"
    then warn
    else if l =t codes "error"
    then error
    else info

pub setup_logger : Env → Logger
setup_logger env = record {
  writers = log_writers env;
  level = log_level (lowered env (codes "LOG_LEVEL"));
  format = if lowered env (codes "LOG_FORMAT") =t codes "text" then text_format else json_format;
}

-- What `NewRiver` is called with.
pub river_config : Env → Text → RiverConfig
river_config env host = record {
  max_workers = env_int env (codes "GUA_MAX_WORKERS") (pos 0);
  max_attempts = env_int env (codes "GUA_MAX_ATTEMPTS") (pos 0);
  delivery_timeout = seconds_duration (env_int env (codes "GUA_DELIVERY_TIMEOUT") (pos 0));
  machine_host = host;
  history_ttl = env_int env (codes "GUA_HISTORY_TTL") (pos 432_000);
  prune_interval = pos 0;
}

-- The configuration that the server starts with, or none where a required variable is missing.
pub start_config : Env → Text → Option RiverConfig
start_config env host =
    if env (codes "GRPC_LISTEN") =t []
      || env (codes "HTTP_LISTEN") =t []
      || env (codes "PG_DSN") =t []
    then none
    else some (river_config env host)

-- Opens the code above, for a run on a concrete environment.
unfoldable pub server_code : Unit {0}
unfolding parse_bool env_int env_bool log_output log_file log_writers log_level setup_logger
    river_config start_config trim_space atoi to_lower ◌=t◌
server_code = tt
