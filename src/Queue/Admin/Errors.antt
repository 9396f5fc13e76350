-- ===== src/Queue/Admin/Errors.antt =====
-- The calls of Queue/Admin that return an error change nothing: the transactions roll back, and the
-- other calls are one statement each.
use gua.Base.{◌≡◌, not, Option, Text, err, arith}
use gua.Base.Int.{ℤ}
use gua.Queue.Types.{Error, invalid, Job}
use gua.Queue.Validate.{guard, is_negative, validate_push}
use gua.Queue.Store.{Insert, is_job}
use gua.Queue.Counts.{update_jobs-none}
use gua.Queue.Monad.{World, query, transaction-err_unchanged, lift-err_unchanged}
use gua.Queue.Admin.{
  push, active, edit, pause, delete, delete_jobs, register_group, remove_group, update_where,
  insert_group,
}

pub push-err_unchanged :
    (insert : Insert) (parse_duration : Text → Option ℤ) (now : ℤ) (job : Job) (w : World)
    {e : Error}
    → (push insert parse_duration now job w).0 ≡ err e
    → (push insert parse_duration now job w).1.store ≡ w.store
unfolding push
push-err_unchanged insert parse_duration now job w h =
    lift-err_unchanged (validate_push parse_duration now job) _ w
      (λ job' f. transaction-err_unchanged _ w f) h

pub active-err_unchanged :
    (insert : Insert) (now : ℤ) (group id : Text) (exectime : ℤ) (w : World) {e : Error}
    → (active insert now group id exectime w).0 ≡ err e
    → (active insert now group id exectime w).1.store ≡ w.store
unfolding active
active-err_unchanged insert now group id exectime w h =
    lift-err_unchanged (guard (not (is_negative exectime)) invalid) _ w
      (λ _ f. transaction-err_unchanged _ w f) h

pub edit-err_unchanged :
    (group id url payload : Text) (w : World) {e : Error}
    → (edit group id url payload w).0 ≡ err e
    → (edit group id url payload w).1.store ≡ w.store
unfolding edit update_where query
edit-err_unchanged group id url payload w h = ground (
  arith,
  update_jobs-none (is_job group id) (λ j. record j { request_url = url; payload = payload })
      w.store.jobs,
)

pub pause-err_unchanged :
    (group id : Text) (w : World) {e : Error}
    → (pause group id w).0 ≡ err e
    → (pause group id w).1.store ≡ w.store
unfolding pause
pause-err_unchanged group id w h = transaction-err_unchanged _ w h

pub delete-err_unchanged :
    (group id : Text) (w : World) {e : Error}
    → (delete group id w).0 ≡ err e
    → (delete group id w).1.store ≡ w.store
unfolding delete
delete-err_unchanged group id w h = transaction-err_unchanged _ w h

pub delete_jobs-err_unchanged :
    (group name : Text) (w : World) {e : Error}
    → (delete_jobs group name w).0 ≡ err e
    → (delete_jobs group name w).1.store ≡ w.store
unfolding delete_jobs query
delete_jobs-err_unchanged group name w h = ground arith

pub register_group-err_unchanged :
    (group : Text) (w : World) {e : Error}
    → (register_group group w).0 ≡ err e
    → (register_group group w).1.store ≡ w.store
unfolding register_group insert_group query
register_group-err_unchanged group w h = ground arith

pub remove_group-err_unchanged :
    (group : Text) (w : World) {e : Error}
    → (remove_group group w).0 ≡ err e
    → (remove_group group w).1.store ≡ w.store
unfolding remove_group
remove_group-err_unchanged group w h = transaction-err_unchanged _ w h
