-- ===== src/Queue/Worker/Ends.antt =====
-- When River is done with an occurrence, or when it will retry it: the invariant at the end of a run.
use gua.Base.{
  ◌≤◌, ◌≡◌, ◌≢◌, ◌∙◌, ◌⊎◌, inl, inr, refl, sym, ap, subst, Bool, true, false, not, Option, none,
  some, List, [], ◌∷◌, Text, ◌=t◌, Result, ok, err, find, count, any, leb, if◌then◌else◌,
  Bool-cases, arith,
}
use gua.Base.Int.{ℤ}
use gua.Cron.Calendar.{unix}
use gua.Cron.Field.{ParseError}
use gua.Cron.Parser.{Schedule, parse}
use gua.Queue.Types.{Error, not_found, Job, DeliveryError, is_once}
use gua.Queue.Config.{RiverConfig}
use gua.Queue.Store.{RiverJob, JobArgs, Insert, IsInsert, has_id}
use gua.Queue.Monad.{World, query}
use gua.Queue.Invariant.{IsConsistent}
use gua.Queue.Invariant.Busy.{
  IsBusy, is_live, skipped-IsConsistent, dropped_once-IsConsistent, halted-IsConsistent,
}
use gua.Queue.Worker.{
  WorkError, storage_failed, delivery_failed, next_of, Transport, Clock, deliver, record_execution,
  load_job, settle, reschedule, schedule_next, loaded, run, work,
}
use gua.Queue.Worker.Sends.{find-has_id, load_job-same}
use gua.Queue.Counts.{any-count, count-le-count}
use gua.Queue.Worker.Chain.{
  Same, update_where-calm, delete_jobs_where-calm, as_work-done, schedule_next-calm,
  reschedule-IsConsistent, deliver-store, record_execution-Same,
}

-- Whether River is done with the occurrence: it completed, or it is discarded after the last attempt.
abbrev pub is_over : RiverJob → Result WorkError Unit → Bool
is_over job (ok tt) = true
is_over job (err (delivery_failed e)) = leb job.max_attempts job.attempt
is_over job (err (storage_failed e)) = leb job.max_attempts job.attempt

-- Either River is done with the occurrence and the invariant holds, or it retries the occurrence and the
-- tables of the invariant are as before.
abbrev pub Settled : RiverJob → World → Result WorkError Unit × World → Type 0
Settled job w x =
    ((is_over job x.0 ≡ true) × IsConsistent x.1.store.jobs x.1.store.river)
    ⊎ ((is_over job x.0 ≡ false) × Same w x.1)

-- River's insertion does not fail.
abbrev pub Inserts : Insert → Type 0
Inserts insert = (rows : List RiverJob) (a : JobArgs) (at : ℤ) → insert rows a at ≢ none

module _ (insert : Insert) (law : IsInsert insert) (inserts : Inserts insert)
    (parse_duration : Text → Option ℤ) (clock : Clock) (job : RiverJob) where
  reschedule-Settled :
      (def : Job) (w : World) (parsed : Result ParseError Schedule)
      → w.faults ≡ []
      → IsBusy def.id w.store.jobs w.store.river
      → find (has_id def.id) w.store.jobs ≡ some def
      → def.active ≡ true
      → Settled job w (reschedule insert clock def parsed w)
  unfolding reschedule
  reschedule-Settled def w (err e) calm b found on =
      inl (refl, reschedule-IsConsistent insert law clock def w (err e) calm b found on refl)
  reschedule-Settled def w (ok s) calm b found on =
      let at = next_of s clock.now in
      let sure =
        schedule_next-calm insert def.id def.group_name at w calm
          (inserts w.store.river _ (unix at)) in
      let (done, _) = as_work-done insert (schedule_next insert def.id def.group_name at w) sure in
      inl (rw done refl, reschedule-IsConsistent insert law clock def w (ok s) calm b found on done)

  settle-Settled :
      (def : Job) (w : World) (outcome : Result DeliveryError Text)
      → w.faults ≡ []
      → IsBusy def.id w.store.jobs w.store.river
      → find (has_id def.id) w.store.jobs ≡ some def
      → def.active ≡ true
      → Settled job w (settle insert parse_duration clock job def outcome w)
  unfolding settle
  settle-Settled def w (err e) calm b found on =
      elim (Bool-cases (leb job.max_attempts job.attempt)) [
        | inl last ↦
            let f = λ (j : Job). record j { active = false } in
            rw last (
              inl (
                refl,
                subst (λ s. IsConsistent s.jobs s.river)
                    (sym (update_where-calm (has_id def.id) f w calm))
                    (halted-IsConsistent def.id b),
              ))
        | inr more ↦ rw more (inr (refl, (refl, refl)))
      ]
  settle-Settled def w (ok message) calm b found on =
      elim (Bool-cases (is_once def.interval_pattern)) [
        | inl once ↦ rw once (
            inl (
              refl,
              subst (λ s. IsConsistent s.jobs s.river)
                  (sym (delete_jobs_where-calm (has_id def.id) w calm))
                  (dropped_once-IsConsistent def.id b),
            ))
        | inr recurs ↦
            rw recurs
              (reschedule-Settled def w (parse parse_duration def.interval_pattern) calm b found on)
      ]

pub missing-live :
    (id : Text) (jobs : List Job) → find (has_id id) jobs ≡ none → any (is_live id) jobs ≡ false
missing-live id [] f = refl
missing-live id (j ∷ js) f = ground (arith, missing-live id js)

pub paused-live :
    (id : Text) (def : Job) (jobs : List Job)
    → find (has_id id) jobs ≡ some def
    → def.active ≡ false
    → count (has_id id) jobs ≤ 1
    → any (is_live id) jobs ≡ false
paused-live id def [] f off one = refl
paused-live id def (j ∷ js) f off one = elim (Bool-cases (j.id =t id)) [
  | inl same ↦
      let found : j ≡ def = ground arith in
      ground (
        arith,
        found,
        same,
        any-count (is_live id) js,
        count-le-count (is_live id) (has_id id) js (λ j h. ground arith),
      )
  | inr other ↦ ground (arith, other, paused-live id def js)
]

abbrev pub as_loaded : Option Job → Result Error Job
as_loaded none = err not_found
as_loaded (some def) = ok def

pub load_job-calm :
    (id : Text) (w : World) (o : Option Job)
    → w.faults ≡ []
    → find (has_id id) w.store.jobs ≡ o
    → ((load_job id w).0 ≡ as_loaded o) × ((load_job id w).1.faults ≡ [])
unfolding load_job query
load_job-calm id w none calm f = ground arith
load_job-calm id w (some def) calm f = ground arith

module _ (insert : Insert) (law : IsInsert insert) (inserts : Inserts insert) (t : Transport)
    (parse_duration : Text → Option ℤ) (cfg : RiverConfig) (clock : Clock) (job : RiverJob)
    (a : JobArgs) where
  run-Settled :
      (def : Job) (w : World)
      → w.faults ≡ []
      → IsBusy def.id w.store.jobs w.store.river
      → find (has_id def.id) w.store.jobs ≡ some def
      → def.active ≡ true
      → Settled job w (run insert t parse_duration cfg clock job a def w)
  unfolding run
  run-Settled def w calm b found on =
      let (outcome, sent) = deliver t cfg clock def a.plan_time job.id w in
      let (same_store, same_faults) = deliver-store t cfg clock def a.plan_time job.id w in
      let ((jobs, river), quiet) =
        record_execution-Same cfg clock def a.plan_time outcome sent (same_faults ∙ calm) in
      let w' = record_execution cfg clock def a.plan_time outcome sent in
      let same_jobs = jobs ∙ ap (λ s. s.jobs) same_store in
      let same_river = river ∙ ap (λ s. s.river) same_store in
      elim (settle-Settled insert law inserts parse_duration clock job def w' outcome quiet
        (subst (λ js. IsBusy def.id js w'.store.river) (sym same_jobs)
          (subst (IsBusy def.id w.store.jobs) (sym same_river) b))
        (ap (find (has_id def.id)) same_jobs ∙ found) on) [
          | inl fine ↦ inl fine
          | inr (more, (j, r)) ↦ inr (more, (j ∙ same_jobs, r ∙ same_river))
        ]

  pub work-Settled :
      (w : World)
      → w.faults ≡ []
      → IsBusy a.job_id w.store.jobs w.store.river
      → Settled job w (work insert t parse_duration cfg clock job a w)
  unfolding work
  work-Settled w calm b = by_job (find (has_id a.job_id) w.store.jobs) refl
    where
      by_load :
          (o : Option Job) (w' : World)
          → find (has_id a.job_id) w.store.jobs ≡ o
          → w'.faults ≡ []
          → w'.store ≡ w.store
          → Settled job w (loaded insert t parse_duration cfg clock job a (as_loaded o, w'))
      by_load none w' f quiet same = inl (
        refl,
        subst (λ s. IsConsistent s.jobs s.river) (sym same)
            (skipped-IsConsistent a.job_id b (missing-live a.job_id w.store.jobs f)),
      )
      by_load (some def) w' f quiet same = by_flag def.active refl
        where
          by_flag :
              (on : Bool)
              → def.active ≡ on
              → Settled job w (
                  if not on
                  then (ok tt, w')
                  else run insert t parse_duration cfg clock job a def w')
          by_flag false off = inl (
            refl,
            subst (λ s. IsConsistent s.jobs s.river) (sym same)
                (skipped-IsConsistent a.job_id b
                  (paused-live a.job_id def w.store.jobs f off (b.unique a.job_id))),
          )
          by_flag true on =
              let its = sym (find-has_id a.job_id def w.store.jobs f) in
              elim (run-Settled def w' quiet
                (subst (λ s. IsBusy def.id s.jobs s.river) (sym same)
                  (subst (λ id. IsBusy id w.store.jobs w.store.river) its b))
                (subst (λ s. find (has_id def.id) s.jobs ≡ some def) (sym same)
                  (subst (λ id. find (has_id id) w.store.jobs ≡ some def) its f))
                on) [
                  | inl fine ↦ inl fine
                  | inr (more, (j, r)) ↦
                      inr (more, (j ∙ ap (λ s. s.jobs) same, r ∙ ap (λ s. s.river) same))
                ]

      by_job :
          (o : Option Job)
          → find (has_id a.job_id) w.store.jobs ≡ o
          → Settled job w (work insert t parse_duration cfg clock job a w)
      by_job o f =
          let w' = (load_job a.job_id w).1 in
          let (r, quiet) = load_job-calm a.job_id w o calm f in
          subst (λ r. Settled job w (loaded insert t parse_duration cfg clock job a (r, w')))
            (sym r) (by_load o w' f quiet (load_job-same a.job_id w).0)
