-- ===== src/Server/Examples.antt =====
-- The settings of logging.go and cmdriver.go at two environments.
use gua.Base.{
  Bool, ℕ, ◌+◌, ◌-◌, ◌∷◌, Option, none, false, ◌≡◌, refl, true, some, [], Text, codes, ◌=t◌,
  if◌then◌else◌, any, arith,
}
use gua.Base.Int.{pos}
use gua.Base.Strings.{trim_space, atoi}
use gua.Queue.Config.{normalize, effective_timeout, default_delivery_timeout}
use gua.Server.{Env, log_writers, river_config, start_config, server_code}
use gua.Server.Settings.{start_config-timeout, start_config-overflow, is_rotated}
use gua.Queue.Config.{RiverConfig}
use gua.Server.Startup.{Process, new_river}
use gua.Server.Startup.Balance.{total, opens, closes, starts, is_ok, new_river-balanced}
use gua.Server.Process.{
  Reason, no_listener, Outcome, exited, returned, hangs, Waits, start_river, process_code,
}

-- An environment whose deliveries have the timeout given.
abbrev with_timeout : Text → Env
with_timeout timeout key =
    if key =t codes "GUA_DELIVERY_TIMEOUT"
    then timeout
    else if key =t codes "LOG_OUTPUT"
    then codes " Both"
    else codes ":7777"

abbrev host : Text
host = codes "h"

starts_given :
    start_config (with_timeout (codes " 45")) host
    ≡ some (river_config (with_timeout (codes " 45")) host)
unfolding server_code
starts_given = refl

given :
    atoi (trim_space (with_timeout (codes " 45") (codes "GUA_DELIVERY_TIMEOUT"))) ≡ some (pos 45)
unfolding server_code
given = refl

start_config-timeout_example :
    effective_timeout (normalize (river_config (with_timeout (codes " 45")) host)) (pos 0)
    ≡ pos 45_000_000_000
start_config-timeout_example =
    start_config-timeout (with_timeout (codes " 45")) host 45 starts_given given (omega arith)

starts_large :
    start_config (with_timeout (codes "9999999999")) host
    ≡ some (river_config (with_timeout (codes "9999999999")) host)
unfolding server_code
starts_large = refl

given_large :
    atoi (trim_space (with_timeout (codes "9999999999") (codes "GUA_DELIVERY_TIMEOUT")))
    ≡ some (pos 9_999_999_999)
unfolding server_code
given_large = refl

start_config-overflow_example :
    effective_timeout (normalize (river_config (with_timeout (codes "9999999999")) host)) (pos 0)
    ≡ default_delivery_timeout
start_config-overflow_example =
    start_config-overflow (with_timeout (codes "9999999999")) host 9_999_999_999 starts_large
      given_large (omega arith) (omega arith)

both_written : any is_rotated (log_writers (with_timeout [])) ≡ true
unfolding server_code
both_written = refl

-- The listener of HTTP fails, behind twelve calls that succeed.
abbrev fresh : Process
fresh = record {
  faults =
      false ∷ false ∷ false ∷ false ∷ false ∷ false ∷ false ∷ false ∷ false ∷ false ∷ false ∷ false
      ∷ true ∷ [];
  log = [];
}

abbrev config : RiverConfig
config = river_config (with_timeout []) host

new_river-balanced_example :
    let (r, p') = new_river config fresh in
    (total opens p' + total closes fresh
      ≡ total opens fresh + total closes p' + (if is_ok r then 1 else 0))
    × (total starts p' ≡ total starts fresh + (if is_ok r then 1 else 0))
new_river-balanced_example = new_river-balanced config fresh

abbrev waits : Waits
waits = record { http_drain = 4; grpc_drain = 9; river_drain = 20; pool_drain = some 3 }

abbrev end_of : Outcome → Option Reason × ℕ × ℕ
end_of (exited why p) = (some why, total opens p - total closes p, total starts p)
end_of (returned seconds p) = (none, total opens p - total closes p, seconds)
end_of (hangs seconds p) = (none, total opens p - total closes p, seconds)

-- The process exits with its pool open and River's client running.
listener_fails :
    end_of (start_river [] (with_timeout []) host waits fresh) ≡ (some no_listener, 1, 1)
unfolding process_code
listener_fails = refl

-- The gRPC server is stopped at its deadline, and River's client after another 15 seconds; the last connection
-- is returned 3 seconds later.
returns_late :
    end_of (start_river [] (with_timeout []) host waits (record { faults = []; log = [] }))
    ≡ (none, 0, 28)
unfolding process_code
returns_late = refl

abbrev is_hung : Outcome → Bool
is_hung (hangs seconds p) = true
is_hung _ = false

-- A connection that is never returned keeps the process from its return.
pool_in_use :
    is_hung (
      start_river []
        (with_timeout [])
        host
        (record waits { pool_drain = none })
        (record { faults = []; log = [] }))
    ≡ true
unfolding process_code
pool_in_use = refl
