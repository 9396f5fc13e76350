-- ===== src/Queue/Worker/Fates.antt =====
-- What Work of delayquene/riverquene.go makes of the definition that it ran, for each answer to the delivery.
use gua.Base.{
  ◌≤◌, ◌≡◌, ◌∙◌, ◌⊎◌, inl, inr, refl, sym, ap, subst, Bool, true, false, Option, none, some, List,
  [], ◌∷◌, Text, ◌=t◌, Result, ok, err, find, count, leb, if◌then◌else◌, Bool-cases, arith,
}
use gua.Base.Int.{ℤ}
use gua.Cron.Calendar.{unix}
use gua.Cron.Field.{ParseError}
use gua.Cron.Parser.{Schedule, parse}
use gua.Queue.Types.{Job, DeliveryError, is_once}
use gua.Queue.Store.{RiverJob, Insert, IsInsert, has_id, update_jobs, delete_where}
use gua.Queue.Monad.{World}
use gua.Queue.Admin.Effects.{args}
use gua.Queue.Invariant.Busy.{is_live}
use gua.Queue.Spec.{per_job}
use gua.Queue.Spec.Lookups.{find-update_jobs, find-delete_where}
use gua.Queue.Worker.{WorkError, delivery_failed, next_of, Clock, settle, reschedule, schedule_next}
use gua.Queue.Worker.Sends.{find-has_id}
use gua.Queue.Worker.Chain.{
  update_where-calm, delete_jobs_where-calm, as_work-done, schedule_next-calm, schedule_next-ok,
  live_count,
}
use gua.Queue.Worker.Ends.{Inserts}

-- The definition with the id is now `o`, and every other is as it was.
abbrev pub Becomes : Text → Option Job → List Job → List Job → Type 0
Becomes id o jobs jobs' =
    (find (has_id id) jobs' ≡ o)
    × ((other : Text)
        → (other =t id) ≡ false
        → find (has_id other) jobs' ≡ find (has_id other) jobs)

find-hit :
    (id : Text) (def : Job) (jobs : List Job)
    → find (has_id id) jobs ≡ some def
    → has_id id def ≡ true
find-hit id def [] found = absurd cc
find-hit id def (j ∷ js) found = ground (arith, find-hit id def js)

per_job-other :
    (other : Text) (f : Job → Option Job) (jobs : List Job)
    → ((j : Job) → j.id ≡ other → f j ≡ some j)
    → per_job f (find (has_id other) jobs) ≡ find (has_id other) jobs
per_job-other other f jobs same = by_found (find (has_id other) jobs) refl
  where
    by_found : (o : Option Job) → find (has_id other) jobs ≡ o → per_job f o ≡ o
    by_found none e = refl
    by_found (some j) e = same j (find-has_id other j jobs e)

updated-Becomes :
    (id : Text) (q : Job → Bool) (f : Job → Job) (def : Job) (jobs : List Job)
    → find (has_id id) jobs ≡ some def
    → q def ≡ true
    → ((j : Job) → q j ≡ true → has_id id j ≡ true)
    → ((j : Job) → (f j).id ≡ j.id)
    → Becomes id (some (f def)) jobs (update_jobs q f jobs)
updated-Becomes id q f def jobs found hit only keeps = (
  find-update_jobs id q f jobs keeps
      ∙ ap (per_job (λ j. some (if q j then f j else j))) found
      ∙ ground (arith, hit),
  λ other differs.
      find-update_jobs other q f jobs keeps
      ∙ per_job-other other (λ j. some (if q j then f j else j)) jobs
          (λ j its. ground (arith, only j, ap (λ i. i =t id) its, differs)),
)

deleted-Becomes :
    (id : Text) (jobs : List Job)
    → ((id' : Text) → count (has_id id') jobs ≤ 1)
    → Becomes id none jobs (delete_where (has_id id) jobs)
deleted-Becomes id jobs unique = (
  find-delete_where id (has_id id) jobs (unique id) ∙ by_found (find (has_id id) jobs) refl,
  λ other differs.
      find-delete_where other (has_id id) jobs (unique other)
      ∙ per_job-other other (λ j. if has_id id j then none else some j) jobs
          (λ j its. ground (arith, ap (λ i. i =t id) its, differs)),
)
  where
    by_found :
        (o : Option Job)
        → find (has_id id) jobs ≡ o
        → per_job (λ j. if has_id id j then none else some j) o ≡ none
    by_found none e = refl
    by_found (some j) e = ground (arith, find-hit id j jobs e)

-- The pattern of a recurring job that was delivered does not parse, and the job is paused; or it does, and the
-- job is stored with the time of the next activation, where one occurrence is inserted.
abbrev pub Continued :
    Insert → Clock → Job → Result ParseError Schedule → List Job → List RiverJob → World → Type 0
Continued insert clock def (err e) jobs river w' =
    Becomes def.id (some (record def { active = false })) jobs w'.store.jobs
    × (w'.store.river ≡ river)
Continued insert clock def (ok s) jobs river w' =
    let at = unix (next_of s clock.now) in
    Becomes def.id (some (record def { exectime = at })) jobs w'.store.jobs
    × (insert river (args def.id def.group_name at) at ≡ some w'.store.river)

-- What a delivery's answer makes of the definition. A failed one is returned, and the definition is
-- paused after the last attempt. A delivered one that fires once is gone.
abbrev pub Answered :
    Insert
    → (Text → Option ℤ)
    → Clock
    → RiverJob
    → Job
    → Result DeliveryError Text
    → List Job
    → List RiverJob
    → Result WorkError Unit × World
    → Type 0
Answered insert parse_duration clock job def (err e) jobs river (r, w') =
    (r ≡ err (delivery_failed e))
    × (w'.store.river ≡ river)
    × (((leb job.max_attempts job.attempt ≡ true)
          × Becomes def.id (some (record def { active = false })) jobs w'.store.jobs)
        ⊎ ((leb job.max_attempts job.attempt ≡ false) × (w'.store.jobs ≡ jobs)))
Answered insert parse_duration clock job def (ok message) jobs river (r, w') =
    (r ≡ ok tt)
    × (((is_once def.interval_pattern ≡ true)
          × Becomes def.id none jobs w'.store.jobs
          × (w'.store.river ≡ river))
        ⊎ ((is_once def.interval_pattern ≡ false)
            × Continued insert clock def (parse parse_duration def.interval_pattern) jobs river w'))

module _ (insert : Insert) (law : IsInsert insert) (inserts : Inserts insert)
    (parse_duration : Text → Option ℤ) (clock : Clock) (job : RiverJob) (def : Job) where
  reschedule-Continued :
      (w : World) (parsed : Result ParseError Schedule)
      → w.faults ≡ []
      → find (has_id def.id) w.store.jobs ≡ some def
      → def.active ≡ true
      → let (r, w') = reschedule insert clock def parsed w in
        (r ≡ ok tt) × Continued insert clock def parsed w.store.jobs w.store.river w'
  unfolding reschedule
  reschedule-Continued w (err e) calm found on =
      let f = λ (j : Job). record j { active = false } in
      let calmly = update_where-calm (has_id def.id) f w calm in
      let hit = find-hit def.id def w.store.jobs found in
      let becomes =
        updated-Becomes def.id (has_id def.id) f def w.store.jobs found hit (λ j h. h)
          (λ j. refl) in
      (
        refl,
        (
          subst (λ js. Becomes def.id (some (f def)) w.store.jobs js)
              (sym (ap (λ s. s.jobs) calmly)) becomes,
          ap (λ s. s.river) calmly,
        ),
      )
  reschedule-Continued w (ok s) calm found on =
      let at = next_of s clock.now in
      let f = λ (j : Job). record j { exectime = unix at } in
      let x = schedule_next insert def.id def.group_name at w in
      let sure =
        schedule_next-calm insert def.id def.group_name at w calm
          (inserts w.store.river _ (unix at)) in
      let (done, same) = as_work-done insert x sure in
      let sch =
        schedule_next-ok insert def.id def.group_name at w
          (live_count def.id def w.store.jobs found on) sure in
      let hit = find-hit def.id def w.store.jobs found in
      let becomes =
        updated-Becomes def.id (is_live def.id) f def w.store.jobs found (ground (arith, hit, on))
          (λ j h. ground arith) (λ j. refl) in
      (
        done,
        subst
            (λ v.
              Becomes def.id (some (f def)) w.store.jobs v.store.jobs
              × (insert w.store.river (args def.id def.group_name (unix at)) (unix at)
                  ≡ some v.store.river))
            (sym same)
            (
              subst (λ js. Becomes def.id (some (f def)) w.store.jobs js) (sym sch.jobs_after)
                  becomes,
              sch.inserted,
            ),
      )

  pub settle-Answered :
      (w : World) (outcome : Result DeliveryError Text)
      → w.faults ≡ []
      → ((id' : Text) → count (has_id id') w.store.jobs ≤ 1)
      → find (has_id def.id) w.store.jobs ≡ some def
      → def.active ≡ true
      → Answered insert parse_duration clock job def outcome w.store.jobs w.store.river
          (settle insert parse_duration clock job def outcome w)
  unfolding settle
  settle-Answered w (err e) calm unique found on =
      elim (Bool-cases (leb job.max_attempts job.attempt)) [
        | inl last ↦
            let f = λ (j : Job). record j { active = false } in
            let calmly = update_where-calm (has_id def.id) f w calm in
            let becomes =
              updated-Becomes def.id (has_id def.id) f def w.store.jobs found
                (find-hit def.id def w.store.jobs found) (λ j h. h) (λ j. refl) in
            rw last (
              refl,
              ap (λ s. s.river) calmly,
              inl (
                refl,
                subst (λ js. Becomes def.id (some (f def)) w.store.jobs js)
                    (sym (ap (λ s. s.jobs) calmly)) becomes,
              ),
            )
        | inr more ↦ rw more (refl, refl, inr (refl, refl))
      ]
  settle-Answered w (ok message) calm unique found on =
      elim (Bool-cases (is_once def.interval_pattern)) [
        | inl once ↦
            let calmly = delete_jobs_where-calm (has_id def.id) w calm in
            rw once (
              refl,
              inl (
                refl,
                subst (λ js. Becomes def.id none w.store.jobs js) (sym (ap (λ s. s.jobs) calmly))
                    (deleted-Becomes def.id w.store.jobs unique),
                ap (λ s. s.river) calmly,
              ),
            )
        | inr recurs ↦
            let (done, continued) =
              reschedule-Continued w (parse parse_duration def.interval_pattern) calm found on in
            rw recurs (done, inr (refl, continued))
      ]
