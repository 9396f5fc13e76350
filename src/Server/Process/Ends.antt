-- ===== src/Server/Process/Ends.antt =====
-- How startRiver of cmdriver.go ends.
use gua.Base.{ℕ, ◌+◌, ◌≤◌, ◌≡◌, Bool, true, false, none, some, List, [], ◌∷◌, ◌++◌, if◌then◌else◌}
use gua.Server.Startup.{
  Call, Entry, shut_http, stop_grpc_gracefully, stop_grpc, stop_client, close_grpc_pool, close_pool,
  Process, call,
}
use gua.Server.Startup.Balance.{total, opens, closes, starts}
use gua.Server.Process.{Reason, no_listener, Outcome, exited, returned, hangs, Waits}

abbrev pub leaves_queue : Reason → Bool
leaves_queue no_listener = true
leaves_queue _ = false

abbrev made : Call → Bool → Entry
made c failed = record { call = c; failed = failed }

-- The calls of an orderly stop.
abbrev pub stop_calls : Bool → Bool → Bool → List Entry
stop_calls http_failed forced river_failed =
    made shut_http http_failed
    ∷ made stop_grpc_gracefully false
    ∷ ((if forced then made stop_grpc false ∷ [] else [])
        ++ made stop_client river_failed ∷ made close_grpc_pool false ∷ made close_pool false ∷ [])

-- Every pool that was opened is told to close, and the last calls are those of an orderly stop.
abbrev pub Stopped : Process → Process → Type 0
Stopped p p' =
    (total opens p' + total closes p ≡ total opens p + total closes p')
    × ((before : List Entry) × (http_failed : Bool) × (forced : Bool) × (river_failed : Bool)
        × (p'.log ≡ before ++ stop_calls http_failed forced river_failed))

abbrev pub Ended : Waits → Process → Outcome → Type 0
Ended w p (exited why p') =
    (total opens p' + total closes p
      ≡ total opens p + total closes p' + (if leaves_queue why then 1 else 0))
    × (total starts p' ≡ total starts p + (if leaves_queue why then 1 else 0))
Ended w p (returned seconds p') =
    Stopped p p'
    × ((wait : ℕ) × (w.pool_drain ≡ some wait) × (wait ≤ seconds) × (seconds ≤ 25 + wait))
Ended w p (hangs seconds p') = Stopped p p' × (w.pool_drain ≡ none) × (seconds ≤ 25)

-- Calls that neither open nor close the pool.
record Aside (p q : Process) (calls : List Entry) : Type 0 where
  opened : total opens q ≡ total opens p
  closed : total closes q ≡ total closes p
  logged : q.log ≡ p.log ++ calls

-- `Close` closes the pool, once, as its last call.
record Closed (p q : Process) : Type 0 where
  opened : total opens q ≡ total opens p
  closed : total closes q ≡ total closes p + 1
  logged :
      (failed : Bool) × (q.log
        ≡ p.log
          ++ made stop_client failed ∷ made close_grpc_pool false ∷ made close_pool false ∷ [])
