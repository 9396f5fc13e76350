-- ===== src/Queue/Admin/Accepts.antt =====
-- The operations of Queue/Admin on a database that serves every statement.
use gua.Base.{◌≡◌, ◌≢◌, true, false, Option, none, [], Text, ◌=t◌, ok, count, any, arith}
use gua.Base.Int.{ℤ}
use gua.Queue.Types.{Job, split_request_url, validate_name}
use gua.Queue.Validate.{or_now, is_negative, validate_push}
use gua.Queue.Store.{Insert, has_id, is_job, delete_where, pending_of}
use gua.Queue.Monad.{World, query, transaction}
use gua.Queue.Admin.{
  push, active, edit, pause, delete, delete_jobs, is_named, register_group, remove_group,
  find_group, insert_job, insert_group, insert_occurrence, update_where, delete_jobs_where,
  cancel_occurrences, cancel_where, delete_group,
}
use gua.Queue.Admin.Effects.{args}

module _ (w : World) (calm : w.faults ≡ []) where
  module _ (insert : Insert) where
    pub push-accepts :
        (parse_duration : Text → Option ℤ) (now : ℤ) (job : Job) {job' : Job}
        → validate_push parse_duration now job ≡ ok job'
        → any (λ g. g =t job'.group_name) w.store.groups ≡ true
        → any (has_id job'.id) w.store.jobs ≡ false
        → insert w.store.river (args job'.id job'.group_name job'.exectime) job'.exectime ≢ none
        → (push insert parse_duration now job w).0 ≡ ok tt
    unfolding push transaction find_group insert_job insert_occurrence query
    push-accepts parse_duration now job valid housed fresh inserts = ground arith

    pub active-accepts :
        (now : ℤ) (group id : Text) (exectime : ℤ)
        → is_negative exectime ≡ false
        → count (is_job group id) w.store.jobs ≢ 0
        → insert
            (delete_where (pending_of id) w.store.river)
            (args id group (or_now now exectime))
            (or_now now exectime)
          ≢ none
        → (active insert now group id exectime w).0 ≡ ok tt
    unfolding active transaction update_where cancel_occurrences cancel_where insert_occurrence
        query
    active-accepts now group id exectime given known inserts = ground arith

  pub edit-accepts :
      (group id url payload : Text) {target : Text × Text}
      → split_request_url url ≡ ok target
      → count (is_job group id) w.store.jobs ≢ 0
      → (edit group id url payload w).0 ≡ ok tt
  unfolding edit update_where query
  edit-accepts group id url payload readable known = ground arith

  pub pause-accepts :
      (group id : Text) → count (is_job group id) w.store.jobs ≢ 0 → (pause group id w).0 ≡ ok tt
  unfolding pause transaction update_where cancel_occurrences cancel_where query
  pause-accepts group id known = ground arith

  pub delete-accepts :
      (group id : Text) → count (is_job group id) w.store.jobs ≢ 0 → (delete group id w).0 ≡ ok tt
  unfolding delete transaction delete_jobs_where cancel_occurrences cancel_where query
  delete-accepts group id known = ground arith

  pub delete_jobs-accepts :
      (group name : Text)
      → (delete_jobs group name w).0 ≡ ok (count (is_named group name) w.store.jobs)
  unfolding delete_jobs query
  delete_jobs-accepts group name = ground arith

  pub register_group-accepts :
      (group : Text)
      → validate_name group ≡ ok tt
      → any (λ g. g =t group) w.store.groups ≡ false
      → (register_group group w).0 ≡ ok tt
  unfolding register_group insert_group query
  register_group-accepts group valid fresh = ground arith

  pub remove_group-accepts :
      (group : Text) → count (λ g. g =t group) w.store.groups ≢ 0 → (remove_group group w).0 ≡ ok tt
  unfolding remove_group transaction delete_jobs_where cancel_where delete_group query
  remove_group-accepts group known = ground arith
