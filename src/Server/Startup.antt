-- ===== src/Server/Startup.antt =====
-- The start and the stop of the queue: NewRiver, migrate and Close of delayquene/riverquene.go. Each call
-- of a library may fail; a log says what was called, and whether it failed.
pub mod Balance
use gua.Base.{
  ℕ, Bool, true, false, not, Option, none, some, List, [], ◌∷◌, ◌++◌, if◌then◌else◌, Result, ok,
  err,
}
use gua.Base.Int.{ℤ, pos, ltb_ℤ}
use gua.Queue.Config.{RiverConfig, normalize, river_job_timeout, rescue_after, max_delivery_timeout}
use gua.HttpClient.{HttpClient, new_client}

-- The statements of `migrate`, in order.
pub data Statement : Type 0 where
  create_groups create_jobs index_jobs_group create_executions index_exec_group index_exec_created :
      Statement

-- The configuration of River's client.
pub record RiverSetup : Type 0 where
  pub max_workers : ℤ
  pub max_attempts : ℤ
  pub job_timeout : ℤ
  pub rescue_stuck_jobs_after : ℤ
  pub soft_stop_timeout : ℤ
  pub prune_every : Option ℤ

-- The settings of the two servers, in seconds.
pub record GrpcSettings : Type 0 where
  pub keepalive_time : ℕ
  pub keepalive_timeout : ℕ
  pub min_time : ℕ
  pub permit_without_stream : Bool

pub record HttpSettings : Type 0 where
  pub read_timeout : ℕ
  pub read_header_timeout : ℕ
  pub write_timeout : ℕ
  pub idle_timeout : ℕ

pub data Call : Type 0 where
  open_pool new_migrator run_river_migrations : Call
  exec : Statement → Call
  new_river_client : RiverSetup → Call
  start_client stop_client close_grpc_pool close_pool : Call
  new_grpc_server : GrpcSettings → Call
  new_http_server : HttpSettings → Call
  load_env_file listen_grpc listen_http shut_http stop_grpc_gracefully stop_grpc : Call

-- A call that was made, and whether it returned an error.
pub record Entry : Type 0 where
  pub call : Call
  pub failed : Bool

-- `faults` holds true for each later call that fails; the calls behind its end succeed.
pub record Process : Type 0 where
  pub faults : List Bool
  pub log : List Entry

-- An error of a call is only passed on.
pub data Failure : Type 0 where
  failure : Failure

abbrev pub Step : Type 0 → Type 0
Step A = Process → Result Failure A × Process

abbrev pub noted : Call → Bool → List Bool → Process → Process
noted c failed rest p = record {
  faults = rest;
  log = p.log ++ record { call = c; failed = failed } ∷ [];
}

abbrev pub tried : Call → List Bool → Process → Result Failure Unit × Process
tried c [] p = (ok tt, noted c false [] p)
tried c (true ∷ rest) p = (err failure, noted c true rest p)
tried c (false ∷ rest) p = (ok tt, noted c false rest p)

-- A call that may return an error.
unfoldable pub try : Call → Step Unit
try c p = tried c p.faults p

-- A call that returns nothing.
abbrev pub call : Call → Process → Process
call c p = noted c false p.faults p

abbrev pub does : Call → Step Unit
does c p = (ok tt, call c p)

module _ {A B : Type 0} where
  abbrev pub continue : (A → Step B) → Result Failure A × Process → Result Failure B × Process
  continue f (ok a, p) = f a p
  continue f (err e, p) = (err e, p)

  infixl 5 ◌>>=◌ ◌>>◌
  abbrev pub ◌>>=◌ : Step A → (A → Step B) → Step B
  ◌>>=◌ m f p = continue f (m p)

  abbrev pub ◌>>◌ : Step A → Step B → Step B
  m >> k = m >>= λ _. k

abbrev pub closed_on_error : Result Failure Unit × Process → Result Failure Unit × Process
closed_on_error (ok tt, p) = (ok tt, p)
closed_on_error (err e, p) = (err e, call close_pool p)

-- `if err := m; err != nil { pool.Close(); return nil, err }`.
abbrev pub or_close : Step Unit → Step Unit
or_close m p = closed_on_error (m p)

abbrev pub statements : List Statement
statements =
    create_groups ∷ create_jobs ∷ index_jobs_group ∷ create_executions ∷ index_exec_group
    ∷ index_exec_created ∷ []

unfoldable pub exec_all : List Statement → Step Unit
exec_all [] p = (ok tt, p)
exec_all (s ∷ ss) p = (try (exec s) >> exec_all ss) p

unfoldable pub migrate : Step Unit
migrate = do try new_migrator; try run_river_migrations; exec_all statements

abbrev pub drain_timeout : ℤ
drain_timeout = pos 10_000_000_000

-- For the configuration with its defaults.
abbrev pub river_setup : RiverConfig → RiverSetup
river_setup c = record {
  max_workers = c.max_workers;
  max_attempts = c.max_attempts;
  job_timeout = river_job_timeout;
  rescue_stuck_jobs_after = rescue_after;
  soft_stop_timeout = drain_timeout;
  prune_every = if ltb_ℤ (pos 0) c.history_ttl then some c.prune_interval else none;
}

-- The queue that `NewRiver` returns: its configuration and its client for deliveries over HTTP.
pub record Quene : Type 0 where
  pub cfg : RiverConfig
  pub http_client : HttpClient

abbrev pub built : RiverConfig → Result Failure Unit × Process → Result Failure Quene × Process
built c (ok tt, p) =
    (ok (record { cfg = c; http_client = new_client max_delivery_timeout false }), p)
built c (err e, p) = (err e, p)

-- `NewRiver` on a configuration with its defaults.
unfoldable pub connect : RiverConfig → Step Unit
connect c = do
  try open_pool
  or_close migrate
  or_close (try (new_river_client (river_setup c)))
  or_close (try start_client)

unfoldable pub new_river : RiverConfig → Step Quene
new_river c p = built (normalize c) (connect (normalize c) p)

-- `Close`; an error of River's stop is only logged. How long its calls wait is said in Server/Process.
unfoldable pub close : Process → Process
close p = call close_pool (call close_grpc_pool (try stop_client p).1)
