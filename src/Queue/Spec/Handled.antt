-- ===== src/Queue/Spec/Handled.antt =====
-- The requests of Queue/Requests beside Queue/Spec: the states before and after.
use gua.Base.{◌≡◌, ◌∙◌, refl, ap, Option, Text, ok, find}
use gua.Base.Int.{ℤ}
use gua.Queue.Store.{Insert, has_id, is_job, in_group}
use gua.Queue.Admin.{is_named, delete_jobs}
use gua.Queue.Admin.Effects.{
  set_active, push-ok, active-ok, edit-ok, edit-readable, pause-ok, delete-ok, delete_jobs-ok,
  register_group-ok, remove_group-ok,
}
use gua.Queue.Monad.{World, discard-ok}
use gua.Queue.Invariant.{IsUnique}
use gua.Queue.Requests.{
  Request, push_job, active_job, edit_job, pause_job, delete_job, delete_named, register, remove,
  handle,
}
use gua.Queue.Spec.{view, Refines}
use gua.Queue.Spec.Lookups.{
  find-update_jobs, find-fresh, find-delete_where, find-append, known-count, any-delete, any-added,
  any-known, per_job-same,
}

module _ (insert : Insert) (parse_duration : Text → Option ℤ) (now : ℤ) where
  -- Where ids are unique: a request that succeeds, whatever the database did before, was allowed, and the
  -- definitions and groups are then those that the request makes of them, each looked up by its id.
  pub handle-Refines :
      (q : Request) (w : World)
      → IsUnique w.store.jobs
      → (handle insert parse_duration now q w).0 ≡ ok tt
      → Refines parse_duration now q
          (view w.store)
          (view (handle insert parse_duration now q w).1.store)
  handle-Refines (push_job job) w u h =
      let (job', valid, p) = push-ok insert parse_duration now job w h in
      rw p.after (record {
        allowed = (job', valid, p.housed, find-fresh job'.id w.store.jobs p.fresh);
        groups = λ g. refl;
        jobs = λ id. rw valid (find-append id (set_active job') w.store.jobs p.fresh);
      })
  handle-Refines (active_job group id exectime) w u h =
      let (given, a) = active-ok insert now group id exectime w h in
      rw a.after (record {
        allowed = (given, known-count group id w.store.jobs (u id) a.known);
        groups = λ g. refl;
        jobs = λ id'. find-update_jobs id' (is_job group id) _ w.store.jobs (λ j. refl);
      })
  handle-Refines (edit_job group id url payload) w u h =
      let (known, after) = edit-ok group id url payload w h in
      let (target, readable) = edit-readable group id url payload w h in
      rw after (record {
        allowed = (target, readable, known-count group id w.store.jobs (u id) known);
        groups = λ g. refl;
        jobs = λ id'. find-update_jobs id' (is_job group id) _ w.store.jobs (λ j. refl);
      })
  handle-Refines (pause_job group id) w u h =
      let (known, after) = pause-ok group id w h in
      rw after (record {
        allowed = known-count group id w.store.jobs (u id) known;
        groups = λ g. refl;
        jobs = λ id'. find-update_jobs id' (is_job group id) _ w.store.jobs (λ j. refl);
      })
  handle-Refines (delete_job group id) w u h =
      let (known, after) = delete-ok group id w h in
      rw after (record {
        allowed = known-count group id w.store.jobs (u id) known;
        groups = λ g. refl;
        jobs = λ id'. find-delete_where id' (is_job group id) w.store.jobs (u id');
      })
  handle-Refines (delete_named group name) w u h =
      let (n, done, same) = discard-ok (delete_jobs group name) w h in
      let (_, after) = delete_jobs-ok group name w done in
      rw (ap (λ v. v.store) same ∙ after) (record {
        allowed = tt;
        groups = λ g. refl;
        jobs = λ id'. find-delete_where id' (is_named group name) w.store.jobs (u id');
      })
  handle-Refines (register group) w u h =
      let (valid, fresh, after) = register_group-ok group w h in
      rw after (record {
        allowed = (valid, fresh);
        groups = λ g. any-added group g w.store.groups;
        jobs = λ id. per_job-same (find (has_id id) w.store.jobs);
      })
  handle-Refines (remove group) w u h =
      let (known, after) = remove_group-ok group w h in
      rw after (record {
        allowed = any-known group w.store.groups known;
        groups = λ g. any-delete group g w.store.groups;
        jobs = λ id. find-delete_where id (in_group group) w.store.jobs (u id);
      })
