-- ===== src/System.antt =====
-- Requests and runs of the worker that interleave, over the tables of delayquene/riverquene.go. A run
-- takes its steps one by one: the load of the definition, the delivery with its record, and the
-- statements at its end; River starts runs, and drops or retries what they return.
pub mod Served
pub mod Alive
pub mod Flights
pub mod Runs
pub mod Progress
pub mod Deliveries
mod Examples
use gua.Base.{
  ℕ, zero, suc, ◌≡◌, Bool, true, false, ◌&&◌, not, Option, none, some, List, [], ◌∷◌, ◌++◌, Text,
  ◌=t◌, if◌then◌else◌, Result, ok, err, ltb, nth, set_at, remove_at,
}
use gua.Base.Int.{ℤ}
use gua.Queue.Types.{Error, not_found, Job, DeliveryError}
use gua.Queue.Config.{RiverConfig}
use gua.Queue.Store.{
  init, RiverJob, JobArgs, Kind, gua_delivery, gua_history_prune, running, retryable, is_pending,
  Insert,
}
use gua.Queue.Monad.{World}
use gua.Queue.Requests.{Request, handle}
use gua.Queue.Worker.{
  Transport, Clock, WorkError, storage_failed, load_job, deliver, record_execution, settle,
}
use gua.Queue.Worker.Ends.{is_over}

-- How far a run has come.
pub data Phase : Type 0 where
  fetched : Phase
  loaded : Job → Phase
  delivered : Job → Result DeliveryError Text → Phase
  returned : Result WorkError Unit → Phase

-- A run of the row `row`.
pub record Flight : Type 0 where
  pub row : RiverJob
  pub args : JobArgs
  pub phase : Phase

-- The row of a run stands with the run, the rows that no run has in the tables.
pub record System : Type 0 where
  pub world : World
  pub flights : List Flight

-- What happens: a request at a time, with the faults of the database; River starts a run of the n-th
-- row; the n-th run takes a step; River takes what the n-th run returned; River gives up waiting for
-- the n-th run, whose process died.
pub data Event : Type 0 where
  request : ℤ → Request → List Bool → Event
  fetch : ℕ → Event
  advance : ℕ → Transport → Clock → List Bool → Event
  finish rescue : ℕ → Event

abbrev pub with_faults : List Bool → World → World
with_faults faults w = record w { faults = faults }

abbrev pub put_river : List RiverJob → World → World
put_river rows w = record w { store = record w.store { river = rows } }

abbrev pub after_load : Result Error Job → Phase
after_load (ok def) = if not def.active then returned (ok tt) else loaded def
after_load (err not_found) = returned (ok tt)
after_load (err e) = returned (err (storage_failed e))

abbrev pub start : ℕ → RiverJob → Kind → System → System
start n row gua_history_prune s = s
start n row (gua_delivery a) s =
    if is_pending row.state
    then record {
      world = put_river (remove_at n s.world.store.river) s.world;
      flights =
          record {
            row = record row { state = running; attempt = suc row.attempt };
            args = a;
            phase = fetched;
          }
          ∷ s.flights;
    }
    else s

abbrev pub fetched_row : ℕ → Option RiverJob → System → System
fetched_row n none s = s
fetched_row n (some row) s = start n row row.kind s

-- The row of a run waits again, for its next attempt.
abbrev pub retried : Flight → RiverJob
retried f = record f.row { kind = gua_delivery f.args; state = retryable }

abbrev pub landed : Bool → Flight → World → World
landed over f w = if over then w else put_river (w.store.river ++ retried f ∷ []) w

abbrev pub finished : ℕ → Flight → Phase → System → System
finished n f (returned r) s = record {
  world = landed (is_over f.row r) f s.world;
  flights = remove_at n s.flights;
}
finished n f _ s = s

abbrev pub finished_run : ℕ → Option Flight → System → System
finished_run n none s = s
finished_run n (some f) s = finished n f f.phase s

abbrev pub rescued : ℕ → Option Flight → System → System
rescued n none s = s
rescued n (some f) s = record {
  world = landed (not (ltb f.row.attempt f.row.max_attempts)) f s.world;
  flights = remove_at n s.flights;
}

module _ (insert : Insert) (parse_duration : Text → Option ℤ) (cfg : RiverConfig) where
  module _ (t : Transport) (clock : Clock) (row : RiverJob) (a : JobArgs) where
    -- One step of `Work`.
    abbrev pub step_phase : Phase → World → Phase × World
    step_phase fetched w = let (r, w') = load_job a.job_id w in (after_load r, w')
    step_phase (loaded def) w =
        let (outcome, sent) = deliver t cfg clock def a.plan_time row.id w in
        (delivered def outcome, record_execution cfg clock def a.plan_time outcome sent)
    step_phase (delivered def outcome) w =
        let (r, w') = settle insert parse_duration clock row def outcome w in (returned r, w')
    step_phase (returned r) w = (returned r, w)

  abbrev pub advanced : ℕ → Transport → Clock → List Bool → Option Flight → System → System
  advanced n t clock faults none s = s
  advanced n t clock faults (some f) s =
      let (phase, w) = step_phase t clock f.row f.args f.phase (with_faults faults s.world) in
      record { world = w; flights = set_at n (record f { phase = phase }) s.flights }

  unfoldable pub happen : Event → System → System
  happen (request now q faults) s = record s {
    world = (handle insert parse_duration now q (with_faults faults s.world)).1;
  }
  happen (fetch n) s = fetched_row n (nth n s.world.store.river) s
  happen (advance n t clock faults) s = advanced n t clock faults (nth n s.flights) s
  happen (finish n) s = finished_run n (nth n s.flights) s
  happen (rescue n) s = rescued n (nth n s.flights) s

  unfoldable pub run : List Event → System → System
  run [] s = s
  run (e ∷ es) s = run es (happen e s)

abbrev pub empty : System
empty = record { world = record { store = init; faults = []; sent = [] }; flights = [] }
