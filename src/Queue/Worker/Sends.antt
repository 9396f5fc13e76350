-- ===== src/Queue/Worker/Sends.antt =====
-- What a run of the worker sends.
use gua.Base.{
  ℕ, ◌≡◌, ◌⊎◌, inl, inr, refl, Bool, true, false, not, Option, some, List, [], ◌∷◌, ◌++◌, Text,
  Result, ok, err, find, arith, ◌∙◌, ap, if◌then◌else◌, sym, ◌=t◌, =t→eq, Bool-cases,
}
use gua.Base.Int.{ℤ}
use gua.Cron.Calendar.{Time}
use gua.Cron.Field.{ParseError}
use gua.Cron.Parser.{Schedule, parse}
use gua.Queue.Types.{
  Error, not_found, invalid, duplicate, storage, Job, TriggerEnvelope, DeliveryError,
  split_request_url,
}
use gua.Queue.Config.{RiverConfig}
use gua.Queue.Store.{RiverJob, JobArgs, Insert, has_id}
use gua.Queue.Monad.{World, query, transaction_if}
use gua.Queue.Admin.{update_where, delete_jobs_where, insert_occurrence}
use gua.Queue.Worker.{
  next_of, Transport, Clock, envelope, deliver, record_execution, insert_execution, load_job,
  settle, reschedule, schedule_next, schedule_statements, loaded, run, work,
}

schedule_next-sent :
    (insert : Insert) (id group : Text) (at : Time) (w : World)
    → (schedule_next insert id group at w).1.sent ≡ w.sent
unfolding schedule_next schedule_statements transaction_if update_where insert_occurrence query
schedule_next-sent insert id group at w = ground arith

reschedule-sent :
    (insert : Insert) (clock : Clock) (def : Job) (parsed : Result ParseError Schedule) (w : World)
    → (reschedule insert clock def parsed w).1.sent ≡ w.sent
unfolding reschedule update_where query
reschedule-sent insert clock def (err e) w = ground arith
reschedule-sent insert clock def (ok s) w =
    ground (arith, schedule_next-sent insert def.id def.group_name (next_of s clock.now) w)

settle-sent :
    (insert : Insert) (parse_duration : Text → Option ℤ) (clock : Clock) (job : RiverJob)
    (def : Job) (outcome : Result DeliveryError Text) (w : World)
    → (settle insert parse_duration clock job def outcome w).1.sent ≡ w.sent
unfolding settle update_where delete_jobs_where query
settle-sent insert parse_duration clock job def (err e) w = ground arith
settle-sent insert parse_duration clock job def (ok message) w =
    ground (arith, reschedule-sent insert clock def (parse parse_duration def.interval_pattern) w)

pub record_execution-sent :
    (cfg : RiverConfig) (clock : Clock) (def : Job) (plan_time : ℤ)
    (outcome : Result DeliveryError Text) (w : World)
    → (record_execution cfg clock def plan_time outcome w).sent ≡ w.sent
unfolding record_execution insert_execution query
record_execution-sent cfg clock def plan_time outcome w = ground arith

deliver-sent :
    (t : Transport) (cfg : RiverConfig) (clock : Clock) (def : Job) (plan_time : ℤ) (key : ℕ)
    (w : World)
    → ((deliver t cfg clock def plan_time key w).1.sent ≡ w.sent)
      ⊎ ((deliver t cfg clock def plan_time key w).1.sent
          ≡ w.sent ++ envelope def plan_time clock.sent_time key ∷ [])
unfolding deliver
deliver-sent t cfg clock def plan_time key w = ground arith

-- An envelope is sent where the target can be read.
pub deliver-sends :
    (t : Transport) (cfg : RiverConfig) (clock : Clock) (def : Job) (plan_time : ℤ) (key : ℕ)
    (w : World) {target : Text × Text}
    → split_request_url def.request_url ≡ ok target
    → (deliver t cfg clock def plan_time key w).1.sent
      ≡ w.sent ++ envelope def plan_time clock.sent_time key ∷ []
unfolding deliver
deliver-sends t cfg clock def plan_time key w h = rw h refl

pub load_job-ok :
    (id : Text) (w : World) {def : Job}
    → (load_job id w).0 ≡ ok def
    → find (has_id id) w.store.jobs ≡ some def
unfolding load_job query
load_job-ok id w h = ground arith

pub load_job-same :
    (id : Text) (w : World)
    → ((load_job id w).1.store ≡ w.store) × ((load_job id w).1.sent ≡ w.sent)
unfolding load_job query
load_job-same id w = ground arith

pub find-has_id :
    (id : Text) (def : Job) (jobs : List Job) → find (has_id id) jobs ≡ some def → def.id ≡ id
find-has_id id def [] f = absurd cc
find-has_id id def (j ∷ js) f = elim (Bool-cases (j.id =t id)) [
  | inl same ↦
      let found : j ≡ def = ground arith in ap (λ (j : Job). j.id) (sym found) ∙ =t→eq j.id id same
  | inr other ↦ find-has_id id def js (ground (arith, other))
]

module _ (insert : Insert) (t : Transport) (parse_duration : Text → Option ℤ) (cfg : RiverConfig)
    (clock : Clock) (job : RiverJob) (a : JobArgs) where
  abbrev pub Sent : World → List TriggerEnvelope → Type 0
  Sent w sent' =
      (sent' ≡ w.sent)
      ⊎ ((def : Job) × (env : TriggerEnvelope) × (find (has_id a.job_id) w.store.jobs ≡ some def)
          × (def.active ≡ true)
          × (sent' ≡ w.sent ++ env ∷ [])
          × (env.job_id ≡ a.job_id)
          × (env.job_name ≡ def.name)
          × (env.group_name ≡ def.group_name)
          × (env.payload ≡ def.payload)
          × (env.plan_time ≡ a.plan_time)
          × (env.exec_time ≡ clock.sent_time)
          × (env.idempotency_key ≡ job.id))

  run-sent :
      (def : Job) (w : World)
      → ((run insert t parse_duration cfg clock job a def w).1.sent ≡ w.sent)
        ⊎ ((run insert t parse_duration cfg clock job a def w).1.sent
            ≡ w.sent ++ envelope def a.plan_time clock.sent_time job.id ∷ [])
  unfolding run
  run-sent def w =
      let (outcome, sent) = deliver t cfg clock def a.plan_time job.id w in
      let recorded = record_execution cfg clock def a.plan_time outcome sent in
      let same =
        settle-sent insert parse_duration clock job def outcome recorded
        ∙ record_execution-sent cfg clock def a.plan_time outcome sent in
      elim (deliver-sent t cfg clock def a.plan_time job.id w) [
        | inl e ↦ inl (same ∙ e)
        | inr e ↦ inr (same ∙ e)
      ]

  -- A run sends at most one envelope, and only where the job is stored and active. The envelope has the
  -- id of the job, its name, group and payload as they are stored at that time, the planned time of the
  -- occurrence, the time of the sending, and the id of the occurrence as its idempotency key.
  pub work-sent : (w : World) → Sent w (work insert t parse_duration cfg clock job a w).1.sent
  unfolding work
  work-sent w =
      from (load_job a.job_id w) (λ def h. load_job-ok a.job_id w h) (load_job-same a.job_id w).1
    where
      from :
          (x : Result Error Job × World)
          → ((def : Job) → x.0 ≡ ok def → find (has_id a.job_id) w.store.jobs ≡ some def)
          → x.1.sent ≡ w.sent
          → Sent w (loaded insert t parse_duration cfg clock job a x).1.sent
      from (err not_found, w') found same = inl same
      from (err invalid, w') found same = inl same
      from (err duplicate, w') found same = inl same
      from (err storage, w') found same = inl same
      from (ok def, w') found same = by_flag def.active refl
        where
          by_flag :
              (b : Bool)
              → def.active ≡ b
              → Sent w
                  (if not b
                    then (ok tt, w')
                    else run insert t parse_duration cfg clock job a def w').1.sent
          by_flag false off = inl same
          by_flag true on = elim (run-sent def w') [
            | inl e ↦ inl (e ∙ same)
            | inr e ↦
                let sends =
                  ap (λ l. l ++ envelope def a.plan_time clock.sent_time job.id ∷ []) same in
                let env = envelope def a.plan_time clock.sent_time job.id in
                let its = find-has_id a.job_id def w.store.jobs (found def refl) in
                inr
                  (def, env, found def refl, on, e ∙ sends, its, refl, refl, refl, refl, refl, refl)
          ]
