-- ===== src/Queue/Spec/Accepts.antt =====
-- The requests of Queue/Requests beside Queue/Spec: which are refused.
use gua.Base.{◌≡◌, ◌∙◌, ap, [], Option, Text, ok}
use gua.Base.Int.{ℤ}
use gua.Queue.Store.{Insert}
use gua.Queue.Monad.{World, discard-world, as_unit}
use gua.Queue.Admin.{delete_jobs}
use gua.Queue.Admin.Accepts.{
  push-accepts, active-accepts, edit-accepts, pause-accepts, delete-accepts, delete_jobs-accepts,
  register_group-accepts, remove_group-accepts,
}
use gua.Queue.Requests.{
  Request, push_job, active_job, edit_job, pause_job, delete_job, delete_named, register, remove,
  handle,
}
use gua.Queue.Spec.{IsAllowed, view}
use gua.Queue.Spec.Lookups.{count-found, any-missing, count-any_group}
use gua.Queue.Worker.Ends.{Inserts}

module _ (insert : Insert) (inserts : Inserts insert) (parse_duration : Text → Option ℤ)
    (now : ℤ) where
  -- If River does not refuse to insert and the database serves every statement, a request that is allowed
  -- succeeds.
  pub handle-accepts :
      (q : Request) (w : World)
      → w.faults ≡ []
      → IsAllowed parse_duration now q (view w.store)
      → (handle insert parse_duration now q w).0 ≡ ok tt
  handle-accepts (push_job job) w calm (job', valid, housed, fresh) =
      push-accepts w calm insert parse_duration now job valid housed
        (any-missing job'.id w.store.jobs fresh) (inserts _ _ _)
  handle-accepts (active_job group id exectime) w calm (given, (j, found, mine)) =
      active-accepts w calm insert now group id exectime given
        (count-found group id j w.store.jobs found mine) (inserts _ _ _)
  handle-accepts (edit_job group id url payload) w calm (target, readable, (j, found, mine)) =
      edit-accepts w calm group id url payload readable
        (count-found group id j w.store.jobs found mine)
  handle-accepts (pause_job group id) w calm (j, found, mine) =
      pause-accepts w calm group id (count-found group id j w.store.jobs found mine)
  handle-accepts (delete_job group id) w calm (j, found, mine) =
      delete-accepts w calm group id (count-found group id j w.store.jobs found mine)
  handle-accepts (delete_named group name) w calm _ =
      (discard-world (delete_jobs group name) w).1
      ∙ ap as_unit (delete_jobs-accepts w calm group name)
  handle-accepts (register group) w calm (valid, fresh) =
      register_group-accepts w calm group valid fresh
  handle-accepts (remove group) w calm held =
      remove_group-accepts w calm group (count-any_group group w.store.groups held)
