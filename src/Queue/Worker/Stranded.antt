-- ===== src/Queue/Worker/Stranded.antt =====
-- A delivered occurrence whose successor cannot be stored.
use gua.Base.{
  ◌≡◌, ◌≢◌, ◌∙◌, sym, ap, subst, true, false, Option, none, some, [], Text, Result, ok, err, count,
  find, leb,
}
use gua.Base.Int.{ℤ}
use gua.Cron.Calendar.{unix}
use gua.Cron.Parser.{Schedule, parse}
use gua.Queue.Types.{Job, storage, is_once}
use gua.Queue.Config.{RiverConfig}
use gua.Queue.Store.{RiverJob, JobArgs, Insert, has_id}
use gua.Queue.Monad.{World}
use gua.Queue.Admin.Effects.{args}
use gua.Queue.Invariant.{pending_at}
use gua.Queue.Invariant.Busy.{IsBusy, is_live}
use gua.Queue.Worker.{
  WorkError, storage_failed, Transport, Clock, next_of, deliver, record_execution, load_job, settle,
  reschedule, schedule_next, loaded, run, work,
}
use gua.Queue.Worker.Sends.{find-has_id, load_job-same}
use gua.Queue.Worker.Chain.{
  Same, schedule_next-refused, schedule_next-err, as_work-err, live_count, deliver-store,
  record_execution-Same,
}
use gua.Queue.Worker.Ends.{is_over, load_job-calm}
use gua.Queue.Worker.Complete.{deliver-answer}

settle-stranded :
    (insert : Insert) (parse_duration : Text → Option ℤ) (clock : Clock) (job : RiverJob)
    (def : Job) (message : Text) (w : World) {s : Schedule}
    → w.faults ≡ []
    → is_once def.interval_pattern ≡ false
    → parse parse_duration def.interval_pattern ≡ ok s
    → count (is_live def.id) w.store.jobs ≢ 0
    → let at = unix (next_of s clock.now) in
      insert w.store.river (args def.id def.group_name at) at ≡ none
      → let (r, w') = settle insert parse_duration clock job def (ok message) w in
        (r ≡ err (storage_failed storage)) × (w'.store ≡ w.store)
unfolding settle reschedule
settle-stranded insert parse_duration clock job def message w {s} calm recurs parsed live refused =
    let at = next_of s clock.now in
    let failed = schedule_next-refused insert def.id def.group_name at w calm live refused in
    let (error, same) =
      as_work-err insert (schedule_next insert def.id def.group_name at w) failed in
    let unchanged = schedule_next-err insert def.id def.group_name at w failed in
    simp (recurs, parsed) (error, ap (λ v. v.store) same ∙ unchanged)

abbrev Left : World → Result WorkError Unit × World → Type 0
Left w (r, w') = (r ≡ err (storage_failed storage)) × Same w w'

module _ (insert : Insert) (t : Transport) (parse_duration : Text → Option ℤ) (cfg : RiverConfig)
    (clock : Clock) (job : RiverJob) (a : JobArgs) (def : Job) (w : World) {message : Text}
    {s : Schedule} where
  run-Left :
      (w' : World)
      → w'.faults ≡ []
      → w'.store ≡ w.store
      → find (has_id def.id) w.store.jobs ≡ some def
      → def.active ≡ true
      → (deliver t cfg clock def a.plan_time job.id w).0 ≡ ok message
      → is_once def.interval_pattern ≡ false
      → parse parse_duration def.interval_pattern ≡ ok s
      → let at = unix (next_of s clock.now) in
        insert w.store.river (args def.id def.group_name at) at ≡ none
        → Left w (run insert t parse_duration cfg clock job a def w')
  unfolding run
  run-Left w' calm same found on delivered recurs parsed refused =
      let (outcome, sent) = deliver t cfg clock def a.plan_time job.id w' in
      let answer = deliver-answer t cfg clock def a.plan_time job.id w w' ∙ delivered in
      let (same_store, same_faults) = deliver-store t cfg clock def a.plan_time job.id w' in
      let ((jobs, river), quiet) =
        record_execution-Same cfg clock def a.plan_time outcome sent (same_faults ∙ calm) in
      let v = record_execution cfg clock def a.plan_time outcome sent in
      let same_jobs = jobs ∙ ap (λ s. s.jobs) (same_store ∙ same) in
      let same_river = river ∙ ap (λ s. s.river) (same_store ∙ same) in
      let at = unix (next_of s clock.now) in
      let (error, unchanged) =
        settle-stranded insert parse_duration clock job def message v quiet recurs parsed
          (subst (λ js. count (is_live def.id) js ≢ 0) (sym same_jobs)
            (live_count def.id def w.store.jobs found on))
          (subst (λ rows. insert rows (args def.id def.group_name at) at ≡ none) (sym same_river)
            refused) in
      subst (λ o. Left w (settle insert parse_duration clock job def o v)) (sym answer)
        (error, (ap (λ s. s.jobs) unchanged ∙ same_jobs, ap (λ s. s.river) unchanged ∙ same_river))

  -- Where every statement of the database succeeds but River refuses the next occurrence of an active
  -- recurring job, which has no pending occurrence while one is delivered: the run returns the error of the
  -- database and changes no job and no occurrence, whichever attempt it is. So after the last
  -- attempt River is done with the occurrence, while the job is stored as active and has no pending one,
  -- and nothing pauses it.
  pub work-stranded :
      w.faults ≡ []
      → IsBusy a.job_id w.store.jobs w.store.river
      → find (has_id a.job_id) w.store.jobs ≡ some def
      → def.active ≡ true
      → (deliver t cfg clock def a.plan_time job.id w).0 ≡ ok message
      → is_once def.interval_pattern ≡ false
      → parse parse_duration def.interval_pattern ≡ ok s
      → let at = unix (next_of s clock.now) in
        insert w.store.river (args def.id def.group_name at) at ≡ none
        → let (r, w') = work insert t parse_duration cfg clock job a w in
          (r ≡ err (storage_failed storage))
          × Same w w'
          × (find (has_id a.job_id) w'.store.jobs ≡ some def)
          × ((group : Text) → count (pending_at group a.job_id) w'.store.river ≡ 0)
          × (is_over job r ≡ leb job.max_attempts job.attempt)
  unfolding work
  work-stranded calm busy found on delivered recurs parsed refused =
      let (error, (jobs, river)) = left in
      (
        error,
        (jobs, river),
        ap (find (has_id a.job_id)) jobs ∙ found,
        λ group. ap (count (pending_at group a.job_id)) river ∙ busy.idle group,
        ap (is_over job) error,
      )
    where
      its : a.job_id ≡ def.id
      its = sym (find-has_id a.job_id def w.store.jobs found)

      behind :
          (w' : World)
          → w'.faults ≡ []
          → w'.store ≡ w.store
          → Left w (loaded insert t parse_duration cfg clock job a (ok def, w'))
      behind w' quiet same = simp on (
          run-Left w' quiet same (subst (λ id. find (has_id id) w.store.jobs ≡ some def) its found)
            on delivered recurs parsed refused)

      left : Left w (work insert t parse_duration cfg clock job a w)
      left =
          let (r, quiet) = load_job-calm a.job_id w (some def) calm found in
          subst
            (λ r.
              Left w (loaded insert t parse_duration cfg clock job a (r, (load_job a.job_id w).1)))
            (sym r) (behind (load_job a.job_id w).1 quiet (load_job-same a.job_id w).0)
