-- ===== src/System/Flights.antt =====
-- The tables under one step of guaDeliverWorker.Work (delayquene/riverquene.go), with the occurrence that
-- the run carries.
use gua.Base.{
  ℕ, ◌+◌, ◌≤◌, ◌≡◌, ◌≢◌, ◌∙◌, refl, sym, ap, subst, true, false, ◌&&◌, Option, none, some, [], Text,
  ◌=t◌, =t→eq, =t_same, =t_flip, =t_refl, if◌then◌else◌, Result, ok, err, count, any, find, leb,
  Bool-cases, arith, inl, inr,
}
use gua.Base.Int.{ℤ}
use gua.Cron.Calendar.{Time, unix}
use gua.Cron.Field.{ParseError}
use gua.Cron.Parser.{Schedule, parse}
use gua.Queue.Types.{Job, DeliveryError, is_once}
use gua.Queue.Config.{RiverConfig}
use gua.Queue.Store.{RiverJob, JobArgs, Insert, IsInsert, has_id}
use gua.Queue.Counts.{count-any, any-count}
use gua.Queue.Invariant.Preserved.{count-insert}
use gua.Queue.Invariant.Busy.{is_live, lone_armed}
use gua.Queue.Monad.{World, ignore}
use gua.Queue.Admin.{update_where}
use gua.Queue.Worker.{
  Transport, Clock, WorkError, delivery_failed, next_of, deliver, record_execution, load_job,
  settle, reschedule, schedule_next, as_work,
}
use gua.Queue.Worker.Sends.{load_job-same}
use gua.Queue.Worker.Chain.{
  update_where-calm, delete_jobs_where-calm, as_work-done, schedule_next-calm, schedule_next-ok,
  schedule_next-idle, deliver-store, record_execution-Same,
}
use gua.Queue.Worker.Ends.{Inserts, missing-live, paused-live, as_loaded, load_job-calm}
use gua.Queue.Worker.Sends.{find-has_id}
use gua.System.{Phase, fetched, loaded, delivered, returned, after_load, step_phase}
use gua.System.Served.{IsServed, updated-IsServed}
use gua.System.Alive.{is_for, is_alive, idle-IsServed, dropped_once-IsServed, halted-IsServed}

module _ (insert : Insert) (law : IsInsert insert) (inserts : Inserts insert)
    (parse_duration : Text → Option ℤ) (cfg : RiverConfig) (t : Transport) (clock : Clock)
    (row : RiverJob) (a : JobArgs) (rest : Text → Text → ℕ) where
  -- What the run counts for in a phase.
  abbrev weight : Phase → Text → Text → ℕ
  weight p group id = (if is_alive row a p && is_for group id a then 1 else 0) + rest group id

  -- The tables are served, where the run counts for the occurrence that it carries, and `rest` for those
  -- of the other runs.
  abbrev pub Tracked : Phase → World → Type 0
  Tracked p w = IsServed w.store.jobs w.store.river (weight p)

  -- The run found no job to deliver.
  skipped-Tracked :
      (w : World)
      → Tracked fetched w
      → any (is_live a.job_id) w.store.jobs ≡ false
      → Tracked (returned (ok tt)) w
  skipped-Tracked w s no_live =
      idle-IsServed s a.job_id (λ group' id' other. ground (arith, =t_flip a.job_id id')) no_live

  found-Tracked :
      (def : Job) (w : World)
      → Tracked fetched w
      → find (has_id a.job_id) w.store.jobs ≡ some def
      → def.active ≡ true
      → Tracked (loaded def) w
  found-Tracked def w s f on = record {
    unique = s.unique;
    served = λ group' id'. elim (Bool-cases (is_for group' id' a)) [
      | inl same ↦
          let id_same : a.job_id ≡ id' = =t→eq a.job_id id' (ground arith) in
          let group_same : a.group_name ≡ group' = =t→eq a.group_name group' (ground arith) in
          ground (
            arith,
            s.served group' id',
            find-has_id a.job_id def w.store.jobs f,
            =t_refl a.job_id,
            id_same,
            group_same,
            lone_armed a.job_id group' def w.store.jobs f on (s.unique a.job_id),
          )
      | inr other ↦ ground (arith, other, s.served group' id')
    ];
  }

  load-Tracked :
      (w : World)
      → w.faults ≡ []
      → Tracked fetched w
      → let (p, w') = step_phase insert parse_duration cfg t clock row a fetched w in Tracked p w'
  load-Tracked w calm s = by_job (find (has_id a.job_id) w.store.jobs) refl
    where
      by_load :
          (o : Option Job)
          → find (has_id a.job_id) w.store.jobs ≡ o
          → Tracked (after_load (as_loaded o)) w
      by_load none f = skipped-Tracked w s (missing-live a.job_id w.store.jobs f)
      by_load (some def) f = elim (Bool-cases def.active) [
        | inl on ↦ rw on (found-Tracked def w s f on)
        | inr off ↦
            rw off (
              skipped-Tracked w s (paused-live a.job_id def w.store.jobs f off (s.unique a.job_id)))
      ]

      by_job :
          (o : Option Job)
          → find (has_id a.job_id) w.store.jobs ≡ o
          → let (r, w') = load_job a.job_id w in Tracked (after_load r) w'
      by_job o f =
          let (r, _) = load_job-calm a.job_id w o calm f in
          let w' = (load_job a.job_id w).1 in
          subst (λ r. Tracked (after_load r) w') (sym r)
            (subst (λ st. IsServed st.jobs st.river (weight (after_load (as_loaded o))))
              (sym (load_job-same a.job_id w).0) (by_load o f))

  deliver-Tracked :
      (def : Job) (w : World)
      → w.faults ≡ []
      → Tracked (loaded def) w
      → let (p, w') = step_phase insert parse_duration cfg t clock row a (loaded def) w in
        Tracked p w'
  deliver-Tracked def w calm s =
      let (outcome, sent) = deliver t cfg clock def a.plan_time row.id w in
      let (same_store, same_faults) = deliver-store t cfg clock def a.plan_time row.id w in
      let ((jobs, river), _) =
        record_execution-Same cfg clock def a.plan_time outcome sent (same_faults ∙ calm) in
      let k = weight (loaded def) in
      let w' = record_execution cfg clock def a.plan_time outcome sent in
      subst (λ js. IsServed js w'.store.river k) (sym (jobs ∙ ap (λ s. s.jobs) same_store))
        (subst (λ rs. IsServed w.store.jobs rs k) (sym (river ∙ ap (λ s. s.river) same_store)) s)

  -- For other jobs than that of the run, the run does not count.
  elsewhere :
      (def : Job) (outcome : Result DeliveryError Text) (p : Phase) (group' id' : Text)
      → (id' =t def.id) ≡ false
      → weight (delivered def outcome) group' id' ≤ weight p group' id'
  elsewhere def outcome p group' id' other =
      ground (arith, other, =t_same a.job_id id' def.id, =t_flip a.job_id def.id)

  halted-Tracked :
      (def : Job) (outcome : Result DeliveryError Text) (r : Result WorkError Unit) (w : World)
      → w.faults ≡ []
      → Tracked (delivered def outcome) w
      → Tracked
          (returned r)
          (ignore (update_where (has_id def.id) (λ j. record j { active = false })) w)
  halted-Tracked def outcome r w calm s =
      subst (λ st. IsServed st.jobs st.river (weight (returned r)))
        (sym (update_where-calm (has_id def.id) (λ j. record j { active = false }) w calm))
        (halted-IsServed s def.id (elsewhere def outcome (returned r)))

  scheduled-Tracked :
      (def : Job) (outcome : Result DeliveryError Text) (w : World) (at : Time)
      → w.faults ≡ []
      → Tracked (delivered def outcome) w
      → Tracked (returned (ok tt)) (schedule_next insert def.id def.group_name at w).1
  scheduled-Tracked def outcome w at calm s =
      elim (Bool-cases (any (is_live def.id) w.store.jobs)) [
        | inl live ↦
            let some_live : count (is_live def.id) w.store.jobs ≢ 0 =
              λ h. absurd (omega (arith, any-count (is_live def.id) w.store.jobs live, h)) in
            let sch = schedule_next-ok insert def.id def.group_name at w some_live (
              schedule_next-calm insert def.id def.group_name at w calm
                (inserts w.store.river _ (unix at))) in
            let w' = (schedule_next insert def.id def.group_name at w).1 in
            let u =
              updated-IsServed s (is_live def.id) (λ j. record j { exectime = unix at })
                (λ j. (refl, refl, refl)) in
            subst (λ js. IsServed js w'.store.river (weight (returned (ok tt))))
              (sym sch.jobs_after)
              (record {
                unique = u.unique;
                served = λ group' id'. ground (
                  arith,
                  u.served group' id',
                  =t_same def.id a.job_id id',
                  =t_same def.group_name a.group_name group',
                  count-insert insert law w.store.river w'.store.river def.id def.group_name
                      (unix at) (unix at) group' id' sch.inserted,
                );
              })
        | inr none_live ↦
            let (_, same) =
              schedule_next-idle insert def.id def.group_name at w calm
                (count-any (is_live def.id) w.store.jobs none_live) in
            subst (λ st. IsServed st.jobs st.river (weight (returned (ok tt)))) (sym same)
              (idle-IsServed s def.id (elsewhere def outcome (returned (ok tt))) none_live)
      ]

  reschedule-Tracked :
      (def : Job) (outcome : Result DeliveryError Text) (w : World)
      (parsed : Result ParseError Schedule)
      → w.faults ≡ []
      → Tracked (delivered def outcome) w
      → let (r, w') = reschedule insert clock def parsed w in Tracked (returned r) w'
  unfolding reschedule
  reschedule-Tracked def outcome w (err e) calm s = halted-Tracked def outcome (ok tt) w calm s
  reschedule-Tracked def outcome w (ok sch) calm s =
      let at = next_of sch clock.now in
      let x = schedule_next insert def.id def.group_name at w in
      let (done, same) = as_work-done insert x (
        schedule_next-calm insert def.id def.group_name at w calm
          (inserts w.store.river _ (unix at))) in
      subst (λ r. Tracked (returned r) (as_work insert x).1) (sym done)
        (subst (Tracked (returned (ok tt))) (sym same) (scheduled-Tracked def outcome w at calm s))

  settle-Tracked :
      (def : Job) (outcome : Result DeliveryError Text) (w : World)
      → w.faults ≡ []
      → Tracked (delivered def outcome) w
      → let (p, w') =
          step_phase insert parse_duration cfg t clock row a (delivered def outcome) w in
        Tracked p w'
  unfolding settle
  settle-Tracked def (err e) w calm s = elim (Bool-cases (leb row.max_attempts row.attempt)) [
    | inl last ↦ simp last (halted-Tracked def (err e) (err (delivery_failed e)) w calm s)
    | inr more ↦ simp more (record {
      unique = s.unique;
      served = λ group' id'. ground (arith, more, s.served group' id');
    })
  ]
  settle-Tracked def (ok message) w calm s = elim (Bool-cases (is_once def.interval_pattern)) [
    | inl once ↦ simp once (
        subst (λ st. IsServed st.jobs st.river (weight (returned (ok tt))))
          (sym (delete_jobs_where-calm (has_id def.id) w calm))
          (dropped_once-IsServed s def.id (elsewhere def (ok message) (returned (ok tt)))))
    | inr recurs ↦
        simp recurs
          (reschedule-Tracked def (ok message) w (parse parse_duration def.interval_pattern) calm s)
  ]

  -- Every step of a run, with every statement of the database succeeding, keeps the tables served.
  pub step_phase-Tracked :
      (p : Phase) (w : World)
      → w.faults ≡ []
      → Tracked p w
      → let (p', w') = step_phase insert parse_duration cfg t clock row a p w in Tracked p' w'
  step_phase-Tracked fetched w calm s = load-Tracked w calm s
  step_phase-Tracked (loaded def) w calm s = deliver-Tracked def w calm s
  step_phase-Tracked (delivered def outcome) w calm s = settle-Tracked def outcome w calm s
  step_phase-Tracked (returned r) w calm s = s
