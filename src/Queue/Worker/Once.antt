-- ===== src/Queue/Worker/Once.antt =====
-- guaDeliverWorker.Work of delayquene/riverquene.go on the occurrence of a fire-once job, where the consumer
-- takes the delivery over HTTP.
use gua.Base.{
  ℕ, ◌≡◌, ◌∙◌, refl, sym, ap, subst, true, false, Option, some, [], ◌∷◌, ◌++◌, Text, Result, ok,
  find, leb, ◌=t◌, arith,
}
use gua.Base.Int.{ℤ}
use gua.Queue.Types.{Job, http, split_request_url, is_once}
use gua.Queue.Config.{RiverConfig, effective_timeout}
use gua.Queue.Store.{RiverJob, JobArgs, Insert, has_id, delete_where}
use gua.Queue.Monad.{World, query}
use gua.Queue.Admin.{delete_jobs_where}
use gua.Queue.Worker.{
  Transport, Clock, envelope, deliver, trigger, record_execution, insert_execution, load_job,
  settle, loaded, run, work, WorkError,
}

-- An end of a run that sent one envelope and dropped the job.
pub record Delivered (clock : Clock) (job : RiverJob) (a : JobArgs) (def : Job) (w : World)
    (x : Result WorkError Unit × World) : Type 0 where
  pub done : x.0 ≡ ok tt
  pub sent : x.1.sent ≡ w.sent ++ envelope def a.plan_time clock.sent_time job.id ∷ []
  pub dropped : x.1.store.jobs ≡ delete_where (has_id def.id) w.store.jobs

module _ (insert : Insert) (t : Transport) (parse_duration : Text → Option ℤ) (cfg : RiverConfig)
    (clock : Clock) (job : RiverJob) (a : JobArgs) (def : Job) {target body : Text} {status : ℕ}
    (readable : split_request_url def.request_url ≡ ok (http, target))
    (answers : t.post target
        (effective_timeout cfg def.timeout)
        (envelope def a.plan_time clock.sent_time job.id)
      ≡ some (body, status))
    (success : leb 400 status ≡ false) (once : is_once def.interval_pattern ≡ true) where
  deliver-answered :
      (w : World)
      → deliver t cfg clock def a.plan_time job.id w ≡ (
        ok body,
        record w { sent = w.sent ++ envelope def a.plan_time clock.sent_time job.id ∷ [] },
      )
  unfolding deliver trigger ◌=t◌
  deliver-answered w = rw readable (rw answers (rw success refl))

  run-Delivered :
      (w : World)
      → w.faults ≡ []
      → Delivered clock job a def w (run insert t parse_duration cfg clock job a def w)
  unfolding run settle record_execution insert_execution delete_jobs_where query
  run-Delivered w calm = ground (arith, deliver-answered w, once)

  loaded-active :
      (w : World)
      → def.active ≡ true
      → loaded insert t parse_duration cfg clock job a (ok def, w)
        ≡ run insert t parse_duration cfg clock job a def w
  loaded-active w on = ground (arith, on)

  load_job-found :
      (w : World)
      → w.faults ≡ []
      → find (has_id a.job_id) w.store.jobs ≡ some def
      → load_job a.job_id w ≡ (ok def, w)
  unfolding load_job query
  load_job-found w calm found = ground (arith, found)

  -- If the consumer takes the delivery and the database serves every statement, the occurrence of an active
  -- job that fires once ends with one envelope sent and the definition dropped.
  pub work-Delivered :
      (w : World)
      → w.faults ≡ []
      → find (has_id a.job_id) w.store.jobs ≡ some def
      → def.active ≡ true
      → Delivered clock job a def w (work insert t parse_duration cfg clock job a w)
  unfolding work
  work-Delivered w calm found on =
      subst (Delivered clock job a def w)
        (sym (
          ap (loaded insert t parse_duration cfg clock job a) (load_job-found w calm found)
          ∙ loaded-active w on))
        (run-Delivered w calm)
