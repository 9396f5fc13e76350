-- ===== src/Queue/Worker/Complete.antt =====
-- A whole run of Work of delayquene/riverquene.go: the tables, and the definition, at its end.
use gua.Base.{
  ℕ, ◌≤◌, ◌≡◌, ◌∙◌, ◌⊎◌, inl, inr, refl, sym, ap, subst, Bool, true, false, not, Option, none, some,
  [], Text, Result, ok, find, count, if◌then◌else◌, arith,
}
use gua.Base.Int.{ℤ}
use gua.Queue.Types.{Job}
use gua.Queue.Config.{RiverConfig}
use gua.Queue.Store.{RiverJob, JobArgs, Insert, IsInsert, has_id}
use gua.Queue.Monad.{World}
use gua.Queue.Invariant.Busy.{IsBusy}
use gua.Queue.Worker.{
  WorkError, Transport, Clock, deliver, record_execution, load_job, settle, loaded, run, work,
}
use gua.Queue.Worker.Sends.{find-has_id, load_job-same}
use gua.Queue.Worker.Chain.{deliver-store, record_execution-Same}
use gua.Queue.Worker.Ends.{Inserts, Settled, as_loaded, load_job-calm, work-Settled}
use gua.Queue.Worker.Fates.{Answered, settle-Answered}

pub deliver-answer :
    (t : Transport) (cfg : RiverConfig) (clock : Clock) (def : Job) (plan_time : ℤ) (key : ℕ)
    (w w' : World)
    → (deliver t cfg clock def plan_time key w').0 ≡ (deliver t cfg clock def plan_time key w).0
unfolding deliver
deliver-answer t cfg clock def plan_time key w w' = ground arith

module _ (insert : Insert) (t : Transport) (parse_duration : Text → Option ℤ) (cfg : RiverConfig)
    (clock : Clock) (job : RiverJob) (a : JobArgs) where
  -- The end of a run, for the definition that is stored under the id: nothing changes where there is
  -- none or it is paused, and otherwise the delivery's answer counts.
  abbrev pub Fate : Option Job → World → Result WorkError Unit × World → Type 0
  Fate none w (r, w') = (r ≡ ok tt) × (w'.store ≡ w.store)
  Fate (some def) w (r, w') =
      ((def.active ≡ false) × (r ≡ ok tt) × (w'.store ≡ w.store))
      ⊎ ((def.active ≡ true)
          × Answered insert parse_duration clock job def
              (deliver t cfg clock def a.plan_time job.id w).0 w.store.jobs w.store.river (r, w'))

module _ (insert : Insert) (law : IsInsert insert) (inserts : Inserts insert) (t : Transport)
    (parse_duration : Text → Option ℤ) (cfg : RiverConfig) (clock : Clock) (job : RiverJob)
    (a : JobArgs) where
  run-Answered :
      (def : Job) (w w' : World)
      → w'.faults ≡ []
      → w'.store ≡ w.store
      → ((id' : Text) → count (has_id id') w.store.jobs ≤ 1)
      → find (has_id def.id) w.store.jobs ≡ some def
      → def.active ≡ true
      → Answered insert parse_duration clock job def
          (deliver t cfg clock def a.plan_time job.id w).0
          w.store.jobs
          w.store.river
          (run insert t parse_duration cfg clock job a def w')
  unfolding run
  run-Answered def w w' calm same unique found on =
      let (outcome, sent) = deliver t cfg clock def a.plan_time job.id w' in
      let (same_store, same_faults) = deliver-store t cfg clock def a.plan_time job.id w' in
      let ((jobs, river), quiet) =
        record_execution-Same cfg clock def a.plan_time outcome sent (same_faults ∙ calm) in
      let v = record_execution cfg clock def a.plan_time outcome sent in
      let same_jobs = jobs ∙ ap (λ s. s.jobs) (same_store ∙ same) in
      let same_river = river ∙ ap (λ s. s.river) (same_store ∙ same) in
      let answered =
        settle-Answered insert law inserts parse_duration clock job def v outcome quiet
          (subst (λ js. (id' : Text) → count (has_id id') js ≤ 1) (sym same_jobs) unique)
          (ap (find (has_id def.id)) same_jobs ∙ found) on in
      let x = settle insert parse_duration clock job def outcome v in
      subst (λ o. Answered insert parse_duration clock job def o w.store.jobs w.store.river x)
        (deliver-answer t cfg clock def a.plan_time job.id w w')
        (subst (λ js. Answered insert parse_duration clock job def outcome js w.store.river x)
          same_jobs
          (subst (λ r. Answered insert parse_duration clock job def outcome v.store.jobs r x)
            same_river answered))

  loaded-Fate :
      (o : Option Job) (w w' : World)
      → w'.faults ≡ []
      → w'.store ≡ w.store
      → ((id' : Text) → count (has_id id') w.store.jobs ≤ 1)
      → find (has_id a.job_id) w.store.jobs ≡ o
      → Fate insert t parse_duration cfg clock job a o w
          (loaded insert t parse_duration cfg clock job a (as_loaded o, w'))
  loaded-Fate none w w' quiet same unique found = (refl, same)
  loaded-Fate (some def) w w' quiet same unique found = by_flag def.active refl
    where
      by_flag :
          (on : Bool)
          → def.active ≡ on
          → Fate insert t parse_duration cfg clock job a
              (some def)
              w
              (if not on then (ok tt, w') else run insert t parse_duration cfg clock job a def w')
      by_flag false off = inl (off, refl, same)
      by_flag true on =
          let its = sym (find-has_id a.job_id def w.store.jobs found) in
          let found' = subst (λ id. find (has_id id) w.store.jobs ≡ some def) its found in
          inr (on, run-Answered def w w' quiet same unique found' on)

  -- If River inserts as it documents and does not refuse, and every statement of the database succeeds,
  -- then a run of an occurrence whose job has no pending one, while the ids of the jobs are unique and every
  -- other job has one pending occurrence where it is active and none where it is not, ends so: either River is
  -- done with the occurrence, which completed or was the last attempt, and every job has its occurrences, or
  -- River retries it, and the jobs and occurrences are as before. And the definition ends as the delivery
  -- did. Where none is stored under the id, or it is paused, no table changes. Where the delivery failed,
  -- the run returns its error and changes no occurrence; it pauses the definition at the last attempt, and
  -- before it changes no job. Where it was delivered and fires once, it is gone. Where it recurs, it has
  -- the time of the next activation, at which one occurrence was inserted; where its pattern does not
  -- parse, it is paused. In each case no other definition changes.
  pub work-Fate :
      (w : World)
      → w.faults ≡ []
      → IsBusy a.job_id w.store.jobs w.store.river
      → Settled job w (work insert t parse_duration cfg clock job a w)
        × Fate insert t parse_duration cfg clock job a
            (find (has_id a.job_id) w.store.jobs)
            w
            (work insert t parse_duration cfg clock job a w)
  unfolding work
  work-Fate w calm busy =
      let o = find (has_id a.job_id) w.store.jobs in
      let w' = (load_job a.job_id w).1 in
      let (r, quiet) = load_job-calm a.job_id w o calm refl in
      (
        work-Settled insert law inserts t parse_duration cfg clock job a w calm busy,
        subst
            (λ r.
              Fate insert t parse_duration cfg clock job a o w
                (loaded insert t parse_duration cfg clock job a (r, w')))
            (sym r) (loaded-Fate o w w' quiet (load_job-same a.job_id w).0 busy.unique refl),
      )
