-- ===== src/Queue/Examples.antt =====
-- The theorems on the queue, at a group with two jobs.
use gua.Base.{
  List, All, count, leb, ok, ◌≤◌, ℕ, ◌≡◌, refl, true, false, none, [], ◌∷◌, codes, err, length,
  find, some, Text, =t_flip, arith,
}
use gua.Base.Int.{pos, ◌≤ℤ◌}
use gua.Queue.Ids.{gen_id}
use gua.Queue.Types.{is_once, types_code, Stats, HistoryEntry, storage, Job}
use gua.Queue.Config.{
  normalize, effective_timeout, max_delivery_timeout, river_job_timeout, rescue_after,
  effective_timeout_bounds, effective_timeout_exact, effective_timeout_overflow,
}
use gua.Queue.Store.{RiverJob, Insert, has_id}
use gua.Queue.Monad.{World}
use gua.Queue.Admin.{admin_code}
use gua.Queue.Invariant.{IsConsistent, pending_at}
use gua.Queue.Reads.{stats, history, reads_code}
use gua.Queue.Reads.Snapshot.{stats-waits}
use gua.Queue.Reads.History.{Descending, history-Descending}
use gua.Queue.Sample.{
  river_insert, river_insert-IsInsert, no_duration, billing, invoice, invoice_args, store, world,
  store-IsConsistent, all_well, clock, config, taken, in_flight, in_flight-IsBusy,
}
use gua.Queue.Invariant.Busy.{IsBusy}
use gua.Queue.Requests.{push_job, pause_job, handle, handle-IsConsistent, handle-err_unchanged}
use gua.Queue.Spec.{view, Refines, IsKnown}
use gua.Queue.Spec.Handled.{handle-Refines}
use gua.Queue.Spec.Accepts.{handle-accepts}
use gua.Queue.Worker.{storage_failed, deliver, work, worker_code}
use gua.Queue.Worker.Stranded.{work-stranded}
use gua.Queue.Worker.Chain.{Same}
use gua.Cron.Parser.{spec_schedule, parse, hourly, parser_code}
use gua.Queue.Worker.Sends.{Sent, work-sent}
use gua.Queue.Worker.Ends.{is_over, Settled}
use gua.Queue.Worker.Complete.{Fate, work-Fate}

handle-IsConsistent_example :
    let s =
      (handle river_insert no_duration (pos 5) (pause_job billing (codes "a1")) world).1.store in
    IsConsistent s.jobs s.river
handle-IsConsistent_example =
    handle-IsConsistent river_insert no_duration (pos 5) river_insert-IsInsert
      (pause_job billing (codes "a1")) world store-IsConsistent

pause_succeeds :
    (handle river_insert no_duration (pos 5) (pause_job billing (codes "a1")) world).0 ≡ ok tt
unfolding admin_code
pause_succeeds = refl

handle-Refines_example :
    Refines no_duration (pos 5) (pause_job billing (codes "a1")) (view store) (
      view (handle river_insert no_duration (pos 5) (pause_job billing (codes "a1")) world).1.store)
handle-Refines_example =
    handle-Refines river_insert no_duration (pos 5) (pause_job billing (codes "a1")) world
      store-IsConsistent.unique pause_succeeds

invoice-IsKnown : IsKnown billing (codes "a1") (view store)
unfolding types_code
invoice-IsKnown = (invoice, refl, refl)

handle-accepts_example :
    (handle river_insert no_duration (pos 5) (pause_job billing (codes "a1")) world).0 ≡ ok tt
handle-accepts_example =
    handle-accepts river_insert (λ rows a at h. ground arith) no_duration (pos 5)
      (pause_job billing (codes "a1")) world refl invoice-IsKnown

paused_is_active_no_more :
    (handle river_insert no_duration (pos 5) (pause_job billing (codes "a1")) world).1.store
    ≡ record store { jobs = record invoice { active = false } ∷ []; river = [] }
unfolding admin_code
paused_is_active_no_more = refl

-- A duplicate id is found after the transaction began.
abbrev flaky : World
flaky = record world { faults = false ∷ false ∷ false ∷ true ∷ [] }

push_fails :
    (handle river_insert no_duration
      (pos 5)
      (push_job (record invoice { id = codes "b2" }))
      flaky).0
    ≡ err storage
unfolding admin_code
push_fails = refl

handle-err_unchanged_example :
    (handle river_insert no_duration
      (pos 5)
      (push_job (record invoice { id = codes "b2" }))
      flaky).1.store
    ≡ store
handle-err_unchanged_example =
    handle-err_unchanged river_insert no_duration (pos 5)
      (push_job (record invoice { id = codes "b2" })) flaky push_fails

work-Fate_example :
    Settled taken in_flight
      (work river_insert all_well no_duration config clock taken invoice_args in_flight)
    × Fate river_insert all_well no_duration config clock taken invoice_args
        (find (has_id (codes "a1")) in_flight.store.jobs)
        in_flight
        (work river_insert all_well no_duration config clock taken invoice_args in_flight)
work-Fate_example =
    work-Fate river_insert river_insert-IsInsert (λ rows a at h. ground arith) all_well no_duration
      config clock taken invoice_args in_flight refl in_flight-IsBusy

delivered_once :
    (work river_insert all_well no_duration config clock taken invoice_args in_flight).1.store.jobs
    ≡ []
unfolding worker_code
delivered_once = refl

work-sent_example :
    Sent river_insert all_well no_duration config clock taken invoice_args in_flight
      (work river_insert all_well no_duration config clock taken invoice_args in_flight).1.sent
work-sent_example =
    work-sent river_insert all_well no_duration config clock taken invoice_args in_flight

effective_timeout_bounds_example :
    (pos 1 ≤ℤ effective_timeout (normalize config) (pos 4000))
    × (effective_timeout (normalize config) (pos 4000) ≤ℤ max_delivery_timeout)
    × (max_delivery_timeout ≤ℤ river_job_timeout)
    × (river_job_timeout ≤ℤ rescue_after)
effective_timeout_bounds_example = effective_timeout_bounds config (pos 4000)

effective_timeout_exact_example : effective_timeout (normalize config) (pos 45) ≡ pos 45_000_000_000
effective_timeout_exact_example = effective_timeout_exact config 45 (omega arith)

effective_timeout_overflow_example :
    effective_timeout (normalize config) (pos 10_000_000_000) ≡ (normalize config).delivery_timeout
effective_timeout_overflow_example =
    effective_timeout_overflow config 10_000_000_000 (omega arith) (omega arith)

abbrev run_at : ℕ → HistoryEntry
run_at seq = record {
  seq = seq;
  job_id = codes "a1";
  group_name = billing;
  type = codes "HTTP";
  plan_time = pos 0;
  exec_time = pos 0;
  finish_time = pos 0;
  success = true;
  message = [];
  error = none;
  exec_machine_host = [];
  created_at = pos 0;
}

abbrev logged : World
logged = record world { store = record store { executions = run_at 1 ∷ run_at 2 ∷ [] } }

page_of_two : (history billing (pos 5000) logged).0 ≡ ok (run_at 2 ∷ run_at 1 ∷ [])
unfolding reads_code worker_code
page_of_two = refl

history-Descending_example :
    (length (run_at 2 ∷ run_at 1 ∷ []) ≤ 1000)
    × All (λ e. e.group_name ≡ billing) (run_at 2 ∷ run_at 1 ∷ [])
    × Descending (run_at 2 ∷ run_at 1 ∷ [])
history-Descending_example = history-Descending billing (pos 5000) logged page_of_two

-- River refuses every occurrence.
abbrev no_insert : Insert
no_insert rows a at = none

abbrev hourly_invoice : Job
hourly_invoice = record invoice { interval_pattern = codes "@hourly" }

abbrev last_attempt : RiverJob
last_attempt = record taken { attempt = 25 }

abbrev hourly_in_flight : World
hourly_in_flight = record in_flight {
  store = record store { jobs = hourly_invoice ∷ []; river = last_attempt ∷ [] };
}

parse-hourly : parse no_duration (codes "@hourly") ≡ ok (spec_schedule hourly)
unfolding parser_code
parse-hourly = refl

hourly-recurs : is_once (codes "@hourly") ≡ false
unfolding types_code
hourly-recurs = refl

hourly-IsBusy : IsBusy (codes "a1") hourly_in_flight.store.jobs hourly_in_flight.store.river
hourly-IsBusy = record {
  unique = λ id. ground arith;
  idle = λ group. refl;
  others = λ group id other. ground (arith, =t_flip id (codes "a1"));
}

hourly-found : find (has_id (codes "a1")) hourly_in_flight.store.jobs ≡ some hourly_invoice
unfolding types_code
hourly-found = refl

hourly-delivered :
    (deliver all_well config clock hourly_invoice invoice_args.plan_time last_attempt.id
      hourly_in_flight).0
    ≡ ok (codes "done")
unfolding worker_code
hourly-delivered = refl

work-stranded_example :
    let (r, w') =
      work no_insert all_well no_duration config clock last_attempt invoice_args hourly_in_flight in
    (r ≡ err (storage_failed storage))
    × Same hourly_in_flight w'
    × (find (has_id (codes "a1")) w'.store.jobs ≡ some hourly_invoice)
    × ((group : Text) → count (pending_at group (codes "a1")) w'.store.river ≡ 0)
    × (is_over last_attempt r ≡ leb 25 25)
work-stranded_example =
    work-stranded no_insert all_well no_duration config clock last_attempt invoice_args
      hourly_invoice hourly_in_flight refl hourly-IsBusy hourly-found refl hourly-delivered
      hourly-recurs parse-hourly refl

abbrev random_bytes : List ℕ
random_bytes = 0 ∷ 7 ∷ 16 ∷ 159 ∷ 160 ∷ 200 ∷ 255 ∷ 9 ∷ []

id_of_bytes : gen_id random_bytes ≡ codes "0007109fa0c8ff09"
unfolding gen_id
id_of_bytes = refl

abbrev snapshot : Stats
snapshot = record {
  now = pos 5;
  ready_queue_depth = 1;
  running = 0;
  retryable = 0;
  jobs_active = 1;
  jobs_paused = 0;
}

snapshot_of : (stats (pos 5) world).0 ≡ ok snapshot
unfolding reads_code admin_code
snapshot_of = refl

stats-waits_example :
    (snapshot.ready_queue_depth ≡ snapshot.jobs_active)
    × (snapshot.retryable ≤ snapshot.ready_queue_depth)
stats-waits_example = stats-waits (pos 5) world store-IsConsistent snapshot_of
