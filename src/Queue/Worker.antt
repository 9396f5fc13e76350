-- ===== src/Queue/Worker.antt =====
-- delayquene/riverquene.go: guaDeliverWorker.Work with loadJob, deliver, recordExecution and
-- scheduleNext, and pruneWorker.Work. What the consumers answer is a parameter.
pub mod Sends
pub mod Chain
pub mod Ends
pub mod Fates
pub mod Complete
pub mod Stranded
pub mod Once
use gua.Base.{
  ℕ, suc, ◌+◌, ◌*◌, ◌≡◌, refl, Bool, true, false, ◌&&◌, not, Option, none, some, List, [], ◌∷◌,
  ◌++◌, Text, ◌=t◌, if◌then◌else◌, Result, ok, err, find, leb, ltb, ◌==◌,
}
use gua.Base.Int.{ℤ, pos, negsuc, pos_part, neg_part, sub_ℕ, ltb_ℤ}
use gua.Cron.Calendar.{Time, unix}
use gua.Cron.Field.{ParseError}
use gua.Cron.Next.{next}
use gua.Cron.Parser.{Schedule, spec_schedule, constant_delay, parse, delay_next}
use gua.Queue.Types.{
  Error, not_found, Job, TriggerEnvelope, HistoryEntry, DeliveryError, bad_target, transport,
  unsupported, callback_status, reported_failure, http, grpc, split_request_url, is_once,
}
use gua.Queue.Config.{RiverConfig, effective_timeout}
use gua.Queue.Store.{Store, RiverJob, JobArgs, has_id, Insert, delete_where}
use gua.Queue.Monad.{World, Db, ◌>>=◌, ◌>>◌, pure, query, transaction_if, ignore}
use gua.Queue.Admin.{admin_code, update_where, delete_jobs_where, insert_occurrence}

-- What a consumer answers to an envelope, within the timeout: over HTTP the body and the status, over
-- gRPC a nil result, or the success flag and the message. `none` is an error of the transport.
pub record Transport : Type 0 where
  pub post : Text → ℤ → TriggerEnvelope → Option (Text × ℕ)
  pub on_job_trigger : Text → ℤ → TriggerEnvelope → Option (Option (Bool × Text))

-- What the clock says during one run of the worker.
pub record Clock : Type 0 where
  pub exec_time : ℤ
  pub sent_time : ℤ
  pub finish_time : ℤ
  pub now : Time

-- Why `Work` returns an error.
pub data WorkError : Type 0 where
  storage_failed : Error → WorkError
  delivery_failed : DeliveryError → WorkError

abbrev posted : Option (Text × ℕ) → Result DeliveryError Text
posted none = err transport
posted (some (body, status)) = if leb 400 status then err (callback_status status) else ok body

abbrev triggered : Option (Option (Bool × Text)) → Result DeliveryError Text
triggered none = err transport
triggered (some none) = ok []
triggered (some (some (success, message))) =
    if not success then err (reported_failure message) else ok message

-- The switch of `deliver` on the kind of the target.
pub trigger : Transport → Text → Text → ℤ → TriggerEnvelope → Result DeliveryError Text
trigger t kind target timeout env =
    if kind =t http
    then posted (t.post target timeout env)
    else if kind =t grpc
    then triggered (t.on_job_trigger target timeout env)
    else err unsupported

abbrev pub envelope : Job → ℤ → ℤ → ℕ → TriggerEnvelope
envelope def plan_time exec_time key = record {
  job_id = def.id;
  job_name = def.name;
  group_name = def.group_name;
  plan_time = plan_time;
  exec_time = exec_time;
  payload = def.payload;
  idempotency_key = key;
}

abbrev deliver_to :
    Transport
    → ℤ
    → TriggerEnvelope
    → Result Error (Text × Text)
    → World
    → Result DeliveryError Text × World
deliver_to t timeout env (err e) w = (err bad_target, w)
deliver_to t timeout env (ok (kind, target)) w =
    (trigger t kind target timeout env, record w { sent = w.sent ++ env ∷ [] })

pub deliver :
    Transport → RiverConfig → Clock → Job → ℤ → ℕ → World → Result DeliveryError Text × World
deliver t cfg clock def plan_time key =
    deliver_to t (effective_timeout cfg def.timeout) (envelope def plan_time clock.sent_time key)
      (split_request_url def.request_url)

abbrev kind_of : Result Error (Text × Text) → Text
kind_of (ok (kind, target)) = kind
kind_of (err e) = []

abbrev succeeded : Result DeliveryError Text → Bool
succeeded (ok message) = true
succeeded (err e) = false

abbrev message_of : Result DeliveryError Text → Text
message_of (ok message) = message
message_of (err e) = []

abbrev error_of : Result DeliveryError Text → Option DeliveryError
error_of (ok message) = none
error_of (err e) = some e

abbrev pub entry : RiverConfig → Clock → Job → ℤ → Result DeliveryError Text → ℕ → HistoryEntry
entry cfg clock def plan_time outcome seq = record {
  seq = seq;
  job_id = def.id;
  group_name = def.group_name;
  type = kind_of (split_request_url def.request_url);
  plan_time = plan_time;
  exec_time = clock.exec_time;
  finish_time = clock.finish_time;
  success = succeeded outcome;
  message = message_of outcome;
  error = error_of outcome;
  exec_machine_host = cfg.machine_host;
  created_at = clock.finish_time;
}

-- `INSERT INTO gua_executions …`.
pub insert_execution : (ℕ → HistoryEntry) → Db Unit
insert_execution e = query λ s.
    ok (tt, record s { executions = s.executions ++ e s.next_seq ∷ []; next_seq = suc s.next_seq })

pub record_execution : RiverConfig → Clock → Job → ℤ → Result DeliveryError Text → World → World
record_execution cfg clock def plan_time outcome w =
    if not (ltb_ℤ (pos 0) cfg.history_ttl)
    then w
    else ignore (insert_execution (entry cfg clock def plan_time outcome)) w

abbrev found_job : Store → Option Job → Result Error (Job × Store)
found_job s none = err not_found
found_job s (some job) = ok (job, s)

pub load_job : Text → Db Job
load_job id = query λ s. found_job s (find (has_id id) s.jobs)

abbrev pub next_of : Schedule → Time → Time
next_of (spec_schedule s) t = next s t
next_of (constant_delay d) t = delay_next d t

module _ (insert : Insert) where
  -- The statements of `scheduleNext`: true when it goes on to `Commit`.
  schedule_statements : Text → Text → Time → Db Bool
  schedule_statements id group at = do
    n ← update_where (λ j. has_id id j && j.active) (λ j. record j { exectime = unix at })
    if n == 0 then pure false else (insert_occurrence insert id group (unix at) >> pure true)

  pub schedule_next : Text → Text → Time → Db Unit
  schedule_next id group at = transaction_if (schedule_statements id group at)

  abbrev pub as_work : Result Error Unit × World → Result WorkError Unit × World
  as_work (ok tt, w) = (ok tt, w)
  as_work (err e, w) = (err (storage_failed e), w)

  -- After the pattern of a recurring job is parsed.
  unfoldable pub reschedule :
      Clock → Job → Result ParseError Schedule → World → Result WorkError Unit × World
  reschedule clock def (err e) w =
      (ok tt, ignore (update_where (has_id def.id) (λ j. record j { active = false })) w)
  reschedule clock def (ok schedule) w =
      as_work (schedule_next def.id def.group_name (next_of schedule clock.now) w)

  -- After a delivery.
  unfoldable pub settle :
      (Text → Option ℤ)
      → Clock
      → RiverJob
      → Job
      → Result DeliveryError Text
      → World
      → Result WorkError Unit × World
  settle parse_duration clock job def (err e) w = (
    err (delivery_failed e),
    if leb job.max_attempts job.attempt
        then ignore (update_where (has_id def.id) (λ j. record j { active = false })) w
        else w,
  )
  settle parse_duration clock job def (ok message) w =
      if is_once def.interval_pattern
      then (ok tt, ignore (delete_jobs_where (has_id def.id)) w)
      else reschedule clock def (parse parse_duration def.interval_pattern) w

  module _ (t : Transport) (parse_duration : Text → Option ℤ) (cfg : RiverConfig) (clock : Clock)
      (job : RiverJob) (a : JobArgs) where
    -- `Work` on a definition that is active.
    unfoldable pub run : Job → World → Result WorkError Unit × World
    run def w =
        let (outcome, sent) = deliver t cfg clock def a.plan_time job.id w in
        settle parse_duration clock job def outcome
          (record_execution cfg clock def a.plan_time outcome sent)

    abbrev pub loaded : Result Error Job × World → Result WorkError Unit × World
    loaded (err not_found, w) = (ok tt, w)
    loaded (err e, w) = (err (storage_failed e), w)
    loaded (ok def, w) = if not def.active then (ok tt, w) else run def w

    -- `Work`, for the row `job` with the arguments `a`.
    unfoldable pub work : World → Result WorkError Unit × World
    work w = loaded (load_job a.job_id w)

-- A time, some seconds later.
abbrev seconds_after : ℕ → ℤ → ℤ
seconds_after n t = sub_ℕ (pos_part t + n) (neg_part t)

-- `pruneWorker.Work`, at the time `now`.
pub prune : RiverConfig → ℤ → Db Unit
prune cfg now =
    if not (ltb_ℤ (pos 0) cfg.history_ttl)
    then pure tt
    else query λ s. ok (
      tt,
      record s {
        executions =
            delete_where (λ e. ltb_ℤ (seconds_after (pos_part cfg.history_ttl) e.created_at) now)
              s.executions;
      },
    )

-- Opens the code above, for a run on concrete tables.
unfoldable pub worker_code : Unit {0}
unfolding trigger deliver insert_execution record_execution load_job schedule_statements
    schedule_next reschedule settle run work prune transaction_if admin_code
worker_code = tt
