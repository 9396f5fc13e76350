-- ===== src/Queue/Admin/Effects.antt =====
-- What each call of delayquene/riverquene.go does to the tables when it succeeds, for any faults.
use gua.Base.{
  ℕ, ◌≡◌, ◌≢◌, true, false, Option, some, [], ◌∷◌, ◌++◌, Text, ◌=t◌, ok, count, any, arith,
}
use gua.Base.Int.{ℤ}
use gua.Queue.Types.{Job, validate_name, split_request_url}
use gua.Queue.Validate.{validate_push, or_now, is_negative}
use gua.Queue.Store.{
  JobArgs, Store, has_id, is_job, in_group, pending_of, pending_in, update_jobs, delete_where,
  Insert,
}
use gua.Queue.Monad.{World, query, transaction, lift-ok}
use gua.Queue.Admin.{
  find_group, insert_job, insert_occurrence, update_where, delete_jobs_where, cancel_where,
  cancel_occurrences, push, active, edit, pause, delete, is_named, delete_jobs, deleted_ids,
  occurrence_of, insert_group, register_group, delete_group, remove_group,
}

-- The arguments of a job's occurrence at a time.
abbrev pub args : Text → Text → ℤ → JobArgs
args id group at = record { job_id = id; group_name = group; plan_time = at }

abbrev pub set_active : Job → Job
set_active j = record j { active = true }

module _ (insert : Insert) where
  -- `Push` stores the job, active, and one occurrence of it at its time.
  pub record Pushed (job : Job) (s s' : Store) : Type 0 where
    pub housed : any (λ g. g =t job.group_name) s.groups ≡ true
    pub fresh : any (has_id job.id) s.jobs ≡ false
    pub inserted :
        insert s.river (args job.id job.group_name job.exectime) job.exectime ≡ some s'.river
    pub after : s' ≡ record s { jobs = s.jobs ++ set_active job ∷ []; river = s'.river }

  -- `Push` of a job without an objection.
  push_checked :
      (parse_duration : Text → Option ℤ) (now : ℤ) (job job' : Job) (w : World)
      → validate_push parse_duration now job ≡ ok job'
      → (push insert parse_duration now job w).0 ≡ ok tt
      → Pushed job' w.store (push insert parse_duration now job w).1.store
  unfolding push transaction find_group insert_job insert_occurrence query
  push_checked parse_duration now job job' w valid h = ground arith

  pub push-ok :
      (parse_duration : Text → Option ℤ) (now : ℤ) (job : Job) (w : World)
      → (push insert parse_duration now job w).0 ≡ ok tt
      → (job' : Job) × (validate_push parse_duration now job ≡ ok job')
        × Pushed job' w.store (push insert parse_duration now job w).1.store
  unfolding push
  push-ok parse_duration now job w h =
      let (job', valid) = lift-ok (validate_push parse_duration now job) _ w h in
      (job', valid, push_checked parse_duration now job job' w valid h)

  -- `Active` sets the flag and the time, and replaces the pending occurrences by one at that time.
  pub record Activated (group id : Text) (at : ℤ) (s s' : Store) : Type 0 where
    pub known : count (is_job group id) s.jobs ≢ 0
    pub inserted :
        insert (delete_where (pending_of id) s.river) (args id group at) at ≡ some s'.river
    pub after : s' ≡ record s {
      jobs = update_jobs (is_job group id) (λ j. record j { active = true; exectime = at }) s.jobs;
      river = s'.river;
    }

  pub active-ok :
      (now : ℤ) (group id : Text) (exectime : ℤ) (w : World)
      → (active insert now group id exectime w).0 ≡ ok tt
      → (is_negative exectime ≡ false)
        × Activated group id
            (or_now now exectime)
            w.store
            (active insert now group id exectime w).1.store
  unfolding active transaction update_where cancel_occurrences cancel_where insert_occurrence query
  active-ok now group id exectime w h = ground arith

pub edit-ok :
    (group id url payload : Text) (w : World)
    → (edit group id url payload w).0 ≡ ok tt
    → (count (is_job group id) w.store.jobs ≢ 0)
      × ((edit group id url payload w).1.store ≡ record w.store {
        jobs =
            update_jobs
              (is_job group id)
              (λ j. record j { request_url = url; payload = payload })
              w.store.jobs;
      })
unfolding edit update_where query
edit-ok group id url payload w h = ground arith

pub edit-readable :
    (group id url payload : Text) (w : World)
    → (edit group id url payload w).0 ≡ ok tt
    → (target : Text × Text) × (split_request_url url ≡ ok target)
unfolding edit
edit-readable group id url payload w h = lift-ok (split_request_url url) _ w h

pub pause-ok :
    (group id : Text) (w : World)
    → (pause group id w).0 ≡ ok tt
    → (count (is_job group id) w.store.jobs ≢ 0)
      × ((pause group id w).1.store ≡ record w.store {
        jobs = update_jobs (is_job group id) (λ j. record j { active = false }) w.store.jobs;
        river = delete_where (pending_of id) w.store.river;
      })
unfolding pause transaction update_where cancel_occurrences cancel_where query
pause-ok group id w h = ground arith

pub delete-ok :
    (group id : Text) (w : World)
    → (delete group id w).0 ≡ ok tt
    → (count (is_job group id) w.store.jobs ≢ 0)
      × ((delete group id w).1.store ≡ record w.store {
        jobs = delete_where (is_job group id) w.store.jobs;
        river = delete_where (pending_of id) w.store.river;
      })
unfolding delete transaction delete_jobs_where cancel_occurrences cancel_where query
delete-ok group id w h = ground arith

pub delete_jobs-ok :
    (group name : Text) (w : World) {n : ℕ}
    → (delete_jobs group name w).0 ≡ ok n
    → (n ≡ count (is_named group name) w.store.jobs)
      × ((delete_jobs group name w).1.store ≡ record w.store {
        jobs = delete_where (is_named group name) w.store.jobs;
        river = delete_where (occurrence_of group (deleted_ids group name w.store)) w.store.river;
      })
unfolding delete_jobs query
delete_jobs-ok group name w h = ground arith

pub register_group-ok :
    (group : Text) (w : World)
    → (register_group group w).0 ≡ ok tt
    → (validate_name group ≡ ok tt)
      × (any (λ g. g =t group) w.store.groups ≡ false)
      × ((register_group group w).1.store
          ≡ record w.store { groups = w.store.groups ++ group ∷ [] })
unfolding register_group insert_group query
register_group-ok group w h = ground arith

pub remove_group-ok :
    (group : Text) (w : World)
    → (remove_group group w).0 ≡ ok tt
    → (count (λ g. g =t group) w.store.groups ≢ 0)
      × ((remove_group group w).1.store ≡ record w.store {
        groups = delete_where (λ g. g =t group) w.store.groups;
        jobs = delete_where (in_group group) w.store.jobs;
        river = delete_where (pending_in group) w.store.river;
      })
unfolding remove_group transaction delete_jobs_where cancel_where delete_group query
remove_group-ok group w h = ground arith
