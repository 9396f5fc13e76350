-- ===== src/Queue/Admin.antt =====
-- The calls of delayquene/riverquene.go that the admin APIs make and that change the tables: Push,
-- Edit, Active, Pause, Delete, DeleteJobs, RegisterGroup, RemoveGroup. The texts of the SQL are its
-- meaning on the tables.
pub mod Effects
pub mod Errors
pub mod Accepts
use gua.Base.{
  ℕ, zero, suc, Bool, true, false, ◌&&◌, ◌||◌, not, Option, none, some, List, [], ◌∷◌, ◌++◌, Text,
  codes, ◌=t◌, if◌then◌else◌, Result, ok, err, count, find, any, ◌==◌, ◌≡◌, refl,
}
use gua.Base.Int.{ℤ, pos, negsuc}
use gua.Queue.Types.{
  Error, invalid, not_found, duplicate, storage, split_request_url, validate_name, validate_pattern,
  Job,
}
use gua.Queue.Validate.{validate_code, guard, is_negative, or_now, validate_push}
use gua.Queue.Store.{
  RiverJob, JobArgs, Kind, Store, has_id, is_job, in_group, pending_of, pending_in, update_jobs,
  delete_where, Insert, is_pending, gua_delivery, gua_history_prune,
}
use gua.Queue.Monad.{World, Db, ◌>>=◌, ◌>>◌, pure, raise, lift, query, transaction}

-- `if ct.RowsAffected() == 0 { return e }`.
abbrev pub affected : Error → ℕ → Db Unit
affected e n = if n == 0 then raise e else pure tt

-- `SELECT 1 FROM gua_groups WHERE group_name=$1`.
pub find_group : Text → Db Unit
find_group group = query λ s. if any (λ g. g =t group) s.groups then ok (tt, s) else err not_found

-- `INSERT INTO gua_jobs … ON CONFLICT (id) DO NOTHING`: the rows affected.
pub insert_job : Job → Db ℕ
insert_job job = query λ s.
    if any (has_id job.id) s.jobs
    then ok (0, s)
    else ok (1, record s { jobs = s.jobs ++ record job { active = true } ∷ [] })

-- `UPDATE gua_jobs SET … WHERE …`.
unfoldable pub update_where : (Job → Bool) → (Job → Job) → Db ℕ
update_where p f = query λ s. ok (count p s.jobs, record s { jobs = update_jobs p f s.jobs })

-- `DELETE FROM gua_jobs WHERE …`.
unfoldable pub delete_jobs_where : (Job → Bool) → Db ℕ
delete_jobs_where p = query λ s. ok (count p s.jobs, record s { jobs = delete_where p s.jobs })

-- `cancelOccurrencesTx`, and the statement of `RemoveGroup`.
pub cancel_where : (RiverJob → Bool) → Db Unit
cancel_where p = query λ s. ok (tt, record s { river = delete_where p s.river })

pub cancel_occurrences : Text → Db Unit
cancel_occurrences id = cancel_where (pending_of id)

module _ (insert : Insert) where
  abbrev inserted : Store → Option (List RiverJob) → Result Error (Unit × Store)
  inserted s none = err storage
  inserted s (some river) = ok (tt, record s { river = river })

  -- `insertOccurrenceTx`.
  unfoldable pub insert_occurrence : Text → Text → ℤ → Db Unit
  insert_occurrence id group at = query λ s.
      inserted s (insert s.river (record { job_id = id; group_name = group; plan_time = at }) at)

  pub push : (Text → Option ℤ) → ℤ → Job → Db Unit
  push parse_duration now job = do
    job' ← lift (validate_push parse_duration now job)
    transaction do
      find_group job'.group_name
      n ← insert_job job'
      affected duplicate n
      insert_occurrence job'.id job'.group_name job'.exectime

  pub active : ℤ → Text → Text → ℤ → Db Unit
  active now group id exectime = do
    lift (guard (not (is_negative exectime)) invalid)
    let at = or_now now exectime
    transaction do
      n ← update_where (is_job group id) (λ j. record j { active = true; exectime = at })
      affected not_found n
      cancel_occurrences id
      insert_occurrence id group at

pub edit : Text → Text → Text → Text → Db Unit
edit group id request_url payload = do
  lift (split_request_url request_url)
  n ←
      update_where (is_job group id)
        (λ j. record j { request_url = request_url; payload = payload })
  affected not_found n

pub pause : Text → Text → Db Unit
pause group id = transaction do
  n ← update_where (is_job group id) (λ j. record j { active = false })
  affected not_found n
  cancel_occurrences id

pub delete : Text → Text → Db Unit
delete group id =
    transaction
      do n ← delete_jobs_where (is_job group id); affected not_found n; cancel_occurrences id

-- The jobs that `DeleteJobs` removes: those of the group, or those of them with the name.
abbrev pub is_named : Text → Text → Job → Bool
is_named group name j = j.group_name =t group && (name =t [] || j.name =t name)

abbrev pub args_in : (Text → Bool) → Kind → Bool
args_in deleted (gua_delivery a) = deleted a.job_id
args_in deleted gua_history_prune = false

-- `id IN (SELECT id FROM del)`.
abbrev pub deleted_ids : Text → Text → Store → Text → Bool
deleted_ids group name s id = any (λ j. is_named group name j && j.id =t id) s.jobs

abbrev pub occurrence_of : Text → (Text → Bool) → RiverJob → Bool
occurrence_of group deleted o = pending_in group o && args_in deleted o.kind

pub delete_jobs : Text → Text → Db ℕ
delete_jobs group name = query λ s. ok (
  count (is_named group name) s.jobs,
  record s {
    jobs = delete_where (is_named group name) s.jobs;
    river = delete_where (occurrence_of group (deleted_ids group name s)) s.river;
  },
)

-- `INSERT INTO gua_groups … ON CONFLICT DO NOTHING`.
pub insert_group : Text → Db ℕ
insert_group group = query λ s.
    if any (λ g. g =t group) s.groups
    then ok (0, s)
    else ok (1, record s { groups = s.groups ++ group ∷ [] })

pub register_group : Text → Db Unit
register_group group = do lift (validate_name group); n ← insert_group group; affected duplicate n

pub delete_group : Text → Db ℕ
delete_group group = query λ s. ok (
  count (λ g. g =t group) s.groups,
  record s { groups = delete_where (λ g. g =t group) s.groups },
)

pub remove_group : Text → Db Unit
remove_group group = transaction do
  delete_jobs_where (in_group group)
  cancel_where (pending_in group)
  n ← delete_group group
  affected not_found n

-- Opens the code above, for a run on concrete tables.
unfoldable pub admin_code : Unit {0}
unfolding find_group insert_job cancel_where cancel_occurrences push active edit pause delete
    delete_jobs insert_group register_group delete_group remove_group update_where delete_jobs_where
    insert_occurrence validate_code query transaction
admin_code = tt
