-- ===== src/Queue/Requests.antt =====
-- The interface Quene of delayquene/types.go, as far as it changes the tables: one request at a time.
use gua.Base.{◌≡◌, refl, sym, ap, ◌∙◌, inl, inr, subst, true, Option, Text, ok, err}
use gua.Base.Int.{ℤ}
use gua.Queue.Types.{Error, Job}
use gua.Queue.Validate.{or_now}
use gua.Queue.Store.{Insert, IsInsert, is_job}
use gua.Queue.Monad.{ok_or_err, World, Db, discard, discard-ok, discard-err}
use gua.Queue.Admin.{
  push, active, edit, pause, delete, delete_jobs, deleted_ids, register_group, remove_group,
}
use gua.Queue.Admin.Effects.{
  set_active, push-ok, active-ok, edit-ok, pause-ok, delete-ok, delete_jobs-ok, register_group-ok,
  remove_group-ok,
}
use gua.Queue.Admin.Errors.{
  push-err_unchanged, active-err_unchanged, edit-err_unchanged, pause-err_unchanged,
  delete-err_unchanged, delete_jobs-err_unchanged, register_group-err_unchanged,
  remove_group-err_unchanged,
}
use gua.Queue.Invariant.{IsConsistent}
use gua.Queue.Invariant.Preserved.{
  added-IsConsistent, updated-IsConsistent, activated-IsConsistent, paused-IsConsistent,
  deleted-IsConsistent, count-insert,
}
use gua.Queue.Invariant.Groups.{removed-IsConsistent, dropped-IsConsistent}

pub data Request : Type 0 where
  push_job : Job → Request
  active_job : Text → Text → ℤ → Request
  edit_job : Text → Text → Text → Text → Request
  pause_job delete_job delete_named : Text → Text → Request
  register remove : Text → Request

delete_named-err :
    (group name : Text) (w : World) {e : Error}
    → (discard (delete_jobs group name) w).0 ≡ err e
    → (discard (delete_jobs group name) w).1.store ≡ w.store
delete_named-err group name w h =
    let (failed, same) = discard-err (delete_jobs group name) w h in
    ap (λ v. v.store) same ∙ delete_jobs-err_unchanged group name w failed

module _ (insert : Insert) (parse_duration : Text → Option ℤ) (now : ℤ) where
  -- What each request calls; the number that `DeleteJobs` returns is left out.
  abbrev pub handle : Request → Db Unit
  handle (push_job job) = push insert parse_duration now job
  handle (active_job group id exectime) = active insert now group id exectime
  handle (edit_job group id url payload) = edit group id url payload
  handle (pause_job group id) = pause group id
  handle (delete_job group id) = delete group id
  handle (delete_named group name) = discard (delete_jobs group name)
  handle (register group) = register_group group
  handle (remove group) = remove_group group

  -- A request that returns an error, wherever the database failed, leaves the tables as they were.
  pub handle-err_unchanged :
      (r : Request) (w : World) {e : Error}
      → (handle r w).0 ≡ err e
      → (handle r w).1.store ≡ w.store
  handle-err_unchanged (push_job job) w h = push-err_unchanged insert parse_duration now job w h
  handle-err_unchanged (active_job group id exectime) w h =
      active-err_unchanged insert now group id exectime w h
  handle-err_unchanged (edit_job group id url payload) w h =
      edit-err_unchanged group id url payload w h
  handle-err_unchanged (pause_job group id) w h = pause-err_unchanged group id w h
  handle-err_unchanged (delete_job group id) w h = delete-err_unchanged group id w h
  handle-err_unchanged (delete_named group name) w h = delete_named-err group name w h
  handle-err_unchanged (register group) w h = register_group-err_unchanged group w h
  handle-err_unchanged (remove group) w h = remove_group-err_unchanged group w h

  -- A request that succeeds.
  handle-ok :
      (law : IsInsert insert) (r : Request) (w : World)
      → IsConsistent w.store.jobs w.store.river
      → (handle r w).0 ≡ ok tt
      → let s = (handle r w).1.store in IsConsistent s.jobs s.river
  handle-ok law (push_job job) w c h =
      let (job', _, p) = push-ok insert parse_duration now job w h in
      let s' = (handle (push_job job) w).1.store in
      subst (λ s. IsConsistent s.jobs s.river) (sym p.after)
        (added-IsConsistent c (set_active job') s'.river p.fresh refl (λ group' id'.
          count-insert insert law w.store.river s'.river job'.id job'.group_name job'.exectime
            job'.exectime group' id' p.inserted))
  handle-ok law (active_job group id exectime) w c h =
      let (_, a) = active-ok insert now group id exectime w h in
      let s' = (handle (active_job group id exectime) w).1.store in
      let at = or_now now exectime in
      subst (λ s. IsConsistent s.jobs s.river) (sym a.after)
        (activated-IsConsistent c group id a.known (λ j. record j { active = true; exectime = at })
          s'.river (λ j. (refl, refl, refl))
          (λ group' id'. count-insert insert law _ s'.river id group at at group' id' a.inserted))
  handle-ok law (edit_job group id url payload) w c h =
      let (_, after) = edit-ok group id url payload w h in
      subst (λ s. IsConsistent s.jobs s.river) (sym after)
        (updated-IsConsistent c (is_job group id) _ (λ j. (refl, refl, refl)))
  handle-ok law (pause_job group id) w c h =
      let (known, after) = pause-ok group id w h in
      subst (λ s. IsConsistent s.jobs s.river) (sym after)
        (paused-IsConsistent c group id known _ (λ j. (refl, refl, refl)))
  handle-ok law (delete_job group id) w c h =
      let (known, after) = delete-ok group id w h in
      subst (λ s. IsConsistent s.jobs s.river) (sym after) (deleted-IsConsistent c group id known)
  handle-ok law (delete_named group name) w c h =
      let (n, done, same) = discard-ok (delete_jobs group name) w h in
      let (_, after) = delete_jobs-ok group name w done in
      subst (λ s. IsConsistent s.jobs s.river) (sym (ap (λ v. v.store) same ∙ after))
        (dropped-IsConsistent c group name (deleted_ids group name w.store) (λ _. refl))
  handle-ok law (register group) w c h =
      let (_, _, after) = register_group-ok group w h in
      subst (λ s. IsConsistent s.jobs s.river) (sym after) c
  handle-ok law (remove group) w c h =
      let (_, after) = remove_group-ok group w h in
      subst (λ s. IsConsistent s.jobs s.river) (sym after) (removed-IsConsistent c group)

  -- If River inserts as it documents, every request, whether it succeeds or fails and wherever the
  -- database fails, preserves the invariant: an id has one job at most, and the pending occurrences are
  -- one for each active job.
  pub handle-IsConsistent :
      (law : IsInsert insert) (r : Request) (w : World)
      → IsConsistent w.store.jobs w.store.river
      → let s = (handle r w).1.store in IsConsistent s.jobs s.river
  handle-IsConsistent law r w c = elim (ok_or_err (handle r w).0) [
    | inl done ↦ handle-ok law r w c done
    | inr (e, failed) ↦
        subst (λ s. IsConsistent s.jobs s.river) (sym (handle-err_unchanged r w failed)) c
  ]
