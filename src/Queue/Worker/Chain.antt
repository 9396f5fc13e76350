-- ===== src/Queue/Worker/Chain.antt =====
-- The chain of occurrences: what a run of the worker leaves in the tables.
use gua.Base.{
  ℕ, ◌≡◌, ◌≢◌, refl, sym, subst, Bool, true, false, none, some, List, [], ◌∷◌, Text, Result, ok,
  err, find, count, arith,
}
use gua.Base.Int.{ℤ}
use gua.Cron.Calendar.{Time, unix}
use gua.Cron.Field.{ParseError}
use gua.Cron.Parser.{Schedule}
use gua.Queue.Types.{Error, storage, Job, DeliveryError}
use gua.Queue.Config.{RiverConfig}
use gua.Queue.Store.{Store, Insert, IsInsert, has_id, update_jobs, delete_where}
use gua.Queue.Monad.{World, query, transaction_if, transaction_if-err_unchanged}
use gua.Queue.Admin.{update_where, delete_jobs_where, insert_occurrence}
use gua.Queue.Admin.Effects.{args}
use gua.Queue.Invariant.{IsConsistent}
use gua.Queue.Invariant.Preserved.{count-insert}
use gua.Queue.Invariant.Busy.{IsBusy, is_live, halted-IsConsistent, rescheduled-IsConsistent}
use gua.Queue.Worker.{
  as_work, storage_failed, next_of, Transport, Clock, deliver, record_execution, insert_execution,
  reschedule, schedule_next, schedule_statements,
}

-- The next occurrence is stored together with its time, when the job is still active.
pub record Scheduled (insert : Insert) (id group : Text) (at : ℤ) (s s' : Store) : Type 0 where
  pub inserted : insert s.river (args id group at) at ≡ some s'.river
  pub jobs_after : s'.jobs ≡ update_jobs (is_live id) (λ j. record j { exectime = at }) s.jobs

pub schedule_next-ok :
    (insert : Insert) (id group : Text) (at : Time) (w : World)
    → count (is_live id) w.store.jobs ≢ 0
    → (schedule_next insert id group at w).0 ≡ ok tt
    → Scheduled insert id group (unix at) w.store (schedule_next insert id group at w).1.store
unfolding schedule_next schedule_statements transaction_if update_where insert_occurrence query
schedule_next-ok insert id group at w live h = ground arith

pub update_where-calm :
    (p : Job → Bool) (f : Job → Job) (w : World)
    → w.faults ≡ []
    → (update_where p f w).1.store ≡ record w.store { jobs = update_jobs p f w.store.jobs }
unfolding update_where query
update_where-calm p f w calm = ground arith

pub delete_jobs_where-calm :
    (p : Job → Bool) (w : World)
    → w.faults ≡ []
    → (delete_jobs_where p w).1.store ≡ record w.store { jobs = delete_where p w.store.jobs }
unfolding delete_jobs_where query
delete_jobs_where-calm p w calm = ground arith

as_work-ok :
    (insert : Insert) (x : Result Error Unit × World)
    → (as_work insert x).0 ≡ ok tt
    → (x.0 ≡ ok tt) × ((as_work insert x).1 ≡ x.1)
as_work-ok insert (ok tt, w) h = (refl, refl)
as_work-ok insert (err e, w) h = absurd (ground arith)

pub as_work-done :
    (insert : Insert) (x : Result Error Unit × World)
    → x.0 ≡ ok tt
    → ((as_work insert x).0 ≡ ok tt) × ((as_work insert x).1 ≡ x.1)
as_work-done insert (ok tt, w) h = (refl, refl)
as_work-done insert (err e, w) h = absurd (ground arith)

pub as_work-err :
    (insert : Insert) (x : Result Error Unit × World) {e : Error}
    → x.0 ≡ err e
    → ((as_work insert x).0 ≡ err (storage_failed e)) × ((as_work insert x).1 ≡ x.1)
as_work-err insert (ok tt, w) h = absurd (ground arith)
as_work-err insert (err e, w) h = (ground arith, refl)

pub schedule_next-err :
    (insert : Insert) (id group : Text) (at : Time) (w : World) {e : Error}
    → (schedule_next insert id group at w).0 ≡ err e
    → (schedule_next insert id group at w).1.store ≡ w.store
unfolding schedule_next
schedule_next-err insert id group at w h = transaction_if-err_unchanged _ w h

-- It succeeds when the database and River do.
pub schedule_next-calm :
    (insert : Insert) (id group : Text) (at : Time) (w : World)
    → w.faults ≡ []
    → insert w.store.river (args id group (unix at)) (unix at) ≢ none
    → (schedule_next insert id group at w).0 ≡ ok tt
unfolding schedule_next schedule_statements transaction_if update_where insert_occurrence query
schedule_next-calm insert id group at w calm inserts = ground arith

-- And it fails when River does, for a job that is still active.
pub schedule_next-refused :
    (insert : Insert) (id group : Text) (at : Time) (w : World)
    → w.faults ≡ []
    → count (is_live id) w.store.jobs ≢ 0
    → insert w.store.river (args id group (unix at)) (unix at) ≡ none
    → (schedule_next insert id group at w).0 ≡ err storage
unfolding schedule_next schedule_statements transaction_if update_where insert_occurrence query
schedule_next-refused insert id group at w calm live refused = ground arith

-- Where no job is active it does nothing.
pub schedule_next-idle :
    (insert : Insert) (id group : Text) (at : Time) (w : World)
    → w.faults ≡ []
    → count (is_live id) w.store.jobs ≡ 0
    → ((schedule_next insert id group at w).0 ≡ ok tt)
      × ((schedule_next insert id group at w).1.store ≡ w.store)
unfolding schedule_next schedule_statements transaction_if update_where insert_occurrence query
schedule_next-idle insert id group at w calm idle = ground arith

pub live_count :
    (id : Text) (def : Job) (jobs : List Job)
    → find (has_id id) jobs ≡ some def
    → def.active ≡ true
    → count (is_live id) jobs ≢ 0
live_count id def [] f on = absurd cc
live_count id def (j ∷ js) f on = ground (arith, live_count id def js)

-- The database statements all succeed.
module _ (insert : Insert) (law : IsInsert insert) (clock : Clock) (def : Job) (w : World) where
  abbrev Busy : Type 0
  Busy = IsBusy def.id w.store.jobs w.store.river

  abbrev Fine : World → Type 0
  Fine w' = IsConsistent w'.store.jobs w'.store.river

  pub reschedule-IsConsistent :
      (parsed : Result ParseError Schedule)
      → w.faults ≡ []
      → Busy
      → find (has_id def.id) w.store.jobs ≡ some def
      → def.active ≡ true
      → (reschedule insert clock def parsed w).0 ≡ ok tt
      → Fine (reschedule insert clock def parsed w).1
  unfolding reschedule
  reschedule-IsConsistent (err e) calm b found on h =
      let f = λ (j : Job). record j { active = false } in
      subst (λ s. IsConsistent s.jobs s.river) (sym (update_where-calm (has_id def.id) f w calm))
        (halted-IsConsistent def.id b)
  reschedule-IsConsistent (ok s) calm b found on h =
      let at = next_of s clock.now in
      let (done, same) = as_work-ok insert (schedule_next insert def.id def.group_name at w) h in
      let w' = (schedule_next insert def.id def.group_name at w).1 in
      let sch =
        schedule_next-ok insert def.id def.group_name at w
          (live_count def.id def w.store.jobs found on) done in
      subst Fine (sym same) (
        subst (λ js. IsConsistent js w'.store.river) (sym sch.jobs_after)
          (rescheduled-IsConsistent def.id b def (is_live def.id)
            (λ j. record j { exectime = unix at }) w'.store.river found on (λ j. (refl, refl, refl))
            (λ group' id'.
              count-insert insert law w.store.river w'.store.river def.id def.group_name (unix at)
                (unix at) group' id' sch.inserted)))

-- The tables that the invariant is about.
abbrev pub Same : World → World → Type 0
Same w w' = (w'.store.jobs ≡ w.store.jobs) × (w'.store.river ≡ w.store.river)

pub deliver-store :
    (t : Transport) (cfg : RiverConfig) (clock : Clock) (def : Job) (plan_time : ℤ) (key : ℕ)
    (w : World)
    → ((deliver t cfg clock def plan_time key w).1.store ≡ w.store)
      × ((deliver t cfg clock def plan_time key w).1.faults ≡ w.faults)
unfolding deliver
deliver-store t cfg clock def plan_time key w = ground arith

pub record_execution-Same :
    (cfg : RiverConfig) (clock : Clock) (def : Job) (plan_time : ℤ)
    (outcome : Result DeliveryError Text) (w : World)
    → w.faults ≡ []
    → Same w (record_execution cfg clock def plan_time outcome w)
      × ((record_execution cfg clock def plan_time outcome w).faults ≡ [])
unfolding record_execution insert_execution query
record_execution-Same cfg clock def plan_time outcome w calm = ground arith
