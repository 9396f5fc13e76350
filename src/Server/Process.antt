-- ===== src/Server/Process.antt =====
-- startRiver of cmdriver.go: the start of the server, and its stop. The environment is
-- that behind the load of the env-file.
pub mod Ends
use gua.Base.{
  ℕ, ◌+◌, min, max, Bool, true, false, Option, none, some, List, [], ◌∷◌, Text, ◌=t◌, if◌then◌else◌,
  Result, ok, err, leb,
}
use gua.Queue.Config.{RiverConfig}
use gua.Server.{Env, start_config, server_code}
use gua.Server.Startup.{
  Call, load_env_file, listen_grpc, listen_http, new_grpc_server, new_http_server, GrpcSettings,
  HttpSettings, does, ◌>>=◌, shut_http, stop_grpc_gracefully, stop_grpc, Process, Failure, Quene,
  Step, ◌>>◌, try, call, exec_all, migrate, connect, new_river, close,
}

-- Why `logFatal` ended the process with the status 1; its deferred calls are not made then.
pub data Reason : Type 0 where
  no_env_file missing_settings no_queue no_listener : Reason

-- How the server ends: by an exit; by its return from `startRiver`, with the seconds that it waited for what
-- was in flight; or not at all, where the pool of the database never closes. Then the seconds are those
-- until the call that closes the pool.
pub data Outcome : Type 0 where
  exited : Reason → Process → Outcome
  returned : ℕ → Process → Outcome
  hangs : ℕ → Process → Outcome

-- The seconds that the parts of the server would take to finish what is in flight. The close of the pool
-- blocks until every connection is returned to it, without a deadline: the seconds that this takes from the
-- call on, or none where a connection is never returned.
pub record Waits : Type 0 where
  pub http_drain : ℕ
  pub grpc_drain : ℕ
  pub river_drain : ℕ
  pub pool_drain : Option ℕ

-- The deadlines of the shutdown and of `Close`.
abbrev pub shutdown_timeout : ℕ
shutdown_timeout = 10

abbrev pub close_timeout : ℕ
close_timeout = 15

-- The settings of the two servers, in seconds.
abbrev pub grpc_settings : GrpcSettings
grpc_settings = record {
  keepalive_time = 60;
  keepalive_timeout = 20;
  min_time = 20;
  permit_without_stream = true;
}

abbrev pub http_settings : HttpSettings
http_settings = record {
  read_timeout = 3;
  read_header_timeout = 3;
  write_timeout = 15;
  idle_timeout = 60;
}

-- The end of a wait that begins at a time and has a deadline.
abbrev pub until : ℕ → ℕ → ℕ → ℕ
until deadline begun wait = max begun (min (begun + wait) deadline)

abbrev pub is_graceful : ℕ → Waits → Bool
is_graceful begun w = leb (begun + w.grpc_drain) shutdown_timeout

-- `GracefulStop`, and `Stop` where the deadline comes first.
abbrev pub stop_server : Bool → Process → Process
stop_server graceful p =
    let p' = call stop_grpc_gracefully p in if graceful then p' else call stop_grpc p'

-- The return from the close of the pool, the last call of `Close`.
abbrev pub pool_closed : ℕ → Option ℕ → Process → Outcome
pool_closed begun none p = hangs begun p
pool_closed begun (some wait) p = returned (begun + wait) p

-- From the signal, or the failure of a server, to the return with the deferred `Close`.
unfoldable pub shut_down : Waits → Process → Outcome
shut_down w p =
    let http_done = until shutdown_timeout 0 w.http_drain in
    let grpc_done = until shutdown_timeout http_done w.grpc_drain in
    let stopped = stop_server (is_graceful http_done w) (try shut_http p).1 in
    pool_closed (grpc_done + min w.river_drain close_timeout) w.pool_drain (close stopped)

abbrev pub served : Waits → Result Failure Unit × Process → Outcome
served w (ok tt, p) = shut_down w p
served w (err e, p) = exited no_listener p

-- Behind `NewRiver`: the listeners and the servers on them.
unfoldable pub listen : Step Unit
listen = do
  try listen_grpc
  does (new_grpc_server grpc_settings)
  try listen_http
  does (new_http_server http_settings)

abbrev pub with_queue : Waits → Result Failure Quene × Process → Outcome
with_queue w (ok q, p) = served w (listen p)
with_queue w (err e, p) = exited no_queue p

abbrev pub configured : Waits → Option RiverConfig → Process → Outcome
configured w none p = exited missing_settings p
configured w (some c) p = with_queue w (new_river c p)

abbrev pub loaded : Waits → Option RiverConfig → Result Failure Unit × Process → Outcome
loaded w c (ok tt, p) = configured w c p
loaded w c (err e, p) = exited no_env_file p

unfoldable pub start_river : Text → Env → Text → Waits → Process → Outcome
start_river env_file env host w p =
    if env_file =t []
    then configured w (start_config env host) p
    else loaded w (start_config env host) (try load_env_file p)

-- Names on an `unfolding` line what a run of the process is computed with.
unfoldable pub process_code : Unit {0}
unfolding server_code try exec_all migrate connect new_river close shut_down listen start_river
process_code = tt
