-- ===== src/System/Deliveries.antt =====
-- How an occurrence that waits comes to be delivered by the worker of delayquene/riverquene.go.
use gua.Base.{
  ℕ, suc, ◌≡◌, ◌≢◌, ◌∙◌, refl, sym, ap, subst, true, Option, some, List, [], ◌∷◌, ◌++◌, Text, =t→eq,
  =t_refl, ok, find, count, nth, nth-count, remove_at, arith,
}
use gua.Base.Int.{ℤ}
use gua.Queue.Types.{Job, split_request_url}
use gua.Queue.Config.{RiverConfig}
use gua.Queue.Store.{
  RiverJob, JobArgs, Kind, gua_delivery, gua_history_prune, has_id, is_pending, running, Insert,
  IsInsert,
}
use gua.Queue.Monad.{World}
use gua.Queue.Invariant.{IsConsistent, pending_at}
use gua.Queue.Invariant.Busy.{lone_armed}
use gua.Queue.Worker.{Transport, Clock, envelope, load_job}
use gua.Queue.Worker.Sends.{deliver-sends, record_execution-sent, load_job-same}
use gua.Queue.Worker.Ends.{Inserts, load_job-calm}
use gua.System.{
  Phase, fetched, loaded, Flight, System, Event, fetch, advance, with_faults, put_river, happen,
  run,
}
use gua.System.Runs.{carries, AllCalm, quiet}
use gua.System.Progress.{drained, drained-IsSafe}

-- A pending occurrence of a job has arguments with its id.
pending-args :
    (group id : Text) (row : RiverJob)
    → pending_at group id row ≡ true
    → (a : JobArgs) × (row.kind ≡ gua_delivery a) × (a.job_id ≡ id) × (is_pending row.state ≡ true)
pending-args group id row h = by_kind row.kind refl
  where
    by_kind :
        (k : Kind)
        → row.kind ≡ k
        → (a : JobArgs) × (row.kind ≡ gua_delivery a)
          × (a.job_id ≡ id)
          × (is_pending row.state ≡ true)
    by_kind (gua_delivery a) is = (a, is, =t→eq a.job_id id (ground (arith, is)), ground arith)
    by_kind gua_history_prune is = absurd (ground (arith, is))

-- River starts the n-th row, and its run takes two steps.
abbrev pub delivery : Transport → Clock → ℕ → List Event
delivery t clock n = fetch n ∷ advance 0 t clock [] ∷ advance 0 t clock [] ∷ []

module _ (insert : Insert) (parse_duration : Text → Option ℤ) (cfg : RiverConfig) (t : Transport)
    (clock : Clock) where
  abbrev started : RiverJob → JobArgs → Phase → Flight
  started row a p = record {
    row = record row { state = running; attempt = suc row.attempt };
    args = a;
    phase = p;
  }

  fetch-starts :
      (n : ℕ) (row : RiverJob) (a : JobArgs) (s : System)
      → nth n s.world.store.river ≡ some row
      → row.kind ≡ gua_delivery a
      → is_pending row.state ≡ true
      → happen insert parse_duration cfg (fetch n) s ≡ record {
        world = put_river (remove_at n s.world.store.river) s.world;
        flights = started row a fetched ∷ s.flights;
      }
  unfolding happen
  fetch-starts n row a s at kind waits = rw at (rw kind (rw waits refl))

  advance-loads :
      (row : RiverJob) (a : JobArgs) (def : Job) (w : World) (fs : List Flight)
      → find (has_id a.job_id) w.store.jobs ≡ some def
      → def.active ≡ true
      → happen insert parse_duration cfg
          (advance 0 t clock [])
          (record { world = w; flights = started row a fetched ∷ fs })
        ≡ record {
          world = (load_job a.job_id (with_faults [] w)).1;
          flights = started row a (loaded def) ∷ fs;
        }
  unfolding happen
  advance-loads row a def w fs found on =
      let (r, _) = load_job-calm a.job_id (with_faults [] w) (some def) refl found in
      rw r (rw on refl)

  advance-sends :
      (row : RiverJob) (a : JobArgs) (def : Job) (w : World) (fs : List Flight)
      {target : Text × Text}
      → split_request_url def.request_url ≡ ok target
      → (happen insert parse_duration cfg
          (advance 0 t clock [])
          (record { world = w; flights = started row a (loaded def) ∷ fs })).world.sent
        ≡ w.sent ++ envelope def a.plan_time clock.sent_time row.id ∷ []
  unfolding happen
  advance-sends row a def w fs target =
      record_execution-sent cfg clock def a.plan_time _ _
      ∙ deliver-sends t cfg clock def a.plan_time row.id (with_faults [] w) target

  delivery-sends :
      (n : ℕ) (row : RiverJob) (a : JobArgs) (def : Job) (s : System) {target : Text × Text}
      → nth n s.world.store.river ≡ some row
      → row.kind ≡ gua_delivery a
      → is_pending row.state ≡ true
      → find (has_id a.job_id) s.world.store.jobs ≡ some def
      → def.active ≡ true
      → split_request_url def.request_url ≡ ok target
      → (run insert parse_duration cfg (delivery t clock n) s).world.sent
        ≡ s.world.sent ++ envelope def a.plan_time clock.sent_time row.id ∷ []
  unfolding run
  delivery-sends n row a def s at kind waits found on target =
      let w = put_river (remove_at n s.world.store.river) s.world in
      let go = happen insert parse_duration cfg (advance 0 t clock []) in
      ap (λ v. (go (go v)).world.sent) (fetch-starts n row a s at kind waits)
      ∙ ap (λ v. (go v).world.sent) (advance-loads row a def w s.flights found on)
      ∙ advance-sends row a def _ s.flights target
      ∙ ap (λ sent. sent ++ envelope def a.plan_time clock.sent_time row.id ∷ [])
          (load_job-same a.job_id (with_faults [] w)).1

  -- If River inserts as it documents and does not refuse, the database serves the steps of runs, and no
  -- process dies during a last attempt: after any events, and once the runs that are then under way
  -- have ended, each job that is active and has a readable target has an occurrence by which three
  -- further events send an envelope with what is stored of the job.
  pub drained-delivers :
      (law : IsInsert insert) (inserts : Inserts insert) (es : List Event) (w : World) (def : Job)
      {target : Text × Text}
      → IsConsistent w.store.jobs w.store.river
      → AllCalm insert parse_duration cfg es (quiet w)
      → let s = drained insert parse_duration cfg t clock es w in
        find (has_id def.id) s.world.store.jobs ≡ some def
        → def.active ≡ true
        → split_request_url def.request_url ≡ ok target
        → (n : ℕ) × (plan_time : ℤ) × (key : ℕ) × ((run insert parse_duration cfg
              (delivery t clock n)
              s).world.sent
            ≡ s.world.sent ++ envelope def plan_time clock.sent_time key ∷ [])
  drained-delivers law inserts es w def c calm found on target =
      let s = drained insert parse_duration cfg t clock es w in
      let (safe, ended) =
        drained-IsSafe insert parse_duration cfg t clock law inserts es w c calm in
      let waits : count (pending_at def.group_name def.id) s.world.store.river ≢ 0 = λ none_waits.
        absurd (
          ground (
            arith,
            safe.served def.group_name def.id,
            ap (count (carries def.group_name def.id)) ended,
            none_waits,
            =t_refl def.group_name,
            lone_armed def.id def.group_name def s.world.store.jobs found on (safe.unique def.id),
          )) in
      let (n, row, at, pends) =
        nth-count (pending_at def.group_name def.id) s.world.store.river waits in
      let (a, kind, same, state) = pending-args def.group_name def.id row pends in
      (
        n,
        a.plan_time,
        row.id,
        delivery-sends n row a def s at kind state
            (subst (λ id. find (has_id id) s.world.store.jobs ≡ some def) (sym same) found) on
            target,
      )
