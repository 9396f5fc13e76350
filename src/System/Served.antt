-- ===== src/System/Served.antt =====
-- The tables of delayquene/riverquene.go between the steps of requests and workers: occurrences that wait,
-- and `k` for those that runs carry, under each request.
use gua.Base.{
  ℕ, ◌+◌, ◌≤◌, ◌≡◌, ◌≢◌, ◌∙◌, refl, sym, ap, subst, Bool, true, false, ◌&&◌, Option, List, [], ◌∷◌,
  ◌++◌, Text, ◌=t◌, =t→eq, =t_flip, =t_same, if◌then◌else◌, count, any, Bool-cases, count-append,
  arith, inl, inr, ok,
}
use gua.Base.Int.{ℤ}
use gua.Queue.Types.{Job}
use gua.Queue.Validate.{or_now}
use gua.Queue.Store.{
  RiverJob, has_id, is_job, in_group, pending_of, pending_in, update_jobs, delete_where, Insert,
  IsInsert,
}
use gua.Queue.Counts.{
  count-delete_all, count-delete_none, count-delete-le, count-any, count-update_jobs,
}
use gua.Queue.Admin.{is_named, occurrence_of, deleted_ids, delete_jobs}
use gua.Queue.Admin.Effects.{
  set_active, push-ok, active-ok, edit-ok, pause-ok, delete-ok, delete_jobs-ok, register_group-ok,
  remove_group-ok,
}
use gua.Queue.Monad.{World, discard-ok, ok_or_err}
use gua.Queue.Invariant.{IsUnique, pending_at, is_armed, pending_at-in, count-cancel}
use gua.Queue.Invariant.Armed.{elsewhere, armed-set, armed-delete, armed-drop}
use gua.Queue.Invariant.Preserved.{count-insert}
use gua.Queue.Invariant.Groups.{occurrence-is_gone}
use gua.Queue.Requests.{
  Request, push_job, active_job, edit_job, pause_job, delete_job, delete_named, register, remove,
  handle, handle-err_unchanged,
}

pub record IsServed (jobs : List Job) (river : List RiverJob) (k : Text → Text → ℕ) : Type 0 where
  pub unique : IsUnique jobs
  pub served :
      (group id : Text)
      → count (is_armed group id) jobs ≤ count (pending_at group id) river + k group id

module _ {jobs : List Job} {river : List RiverJob} {k : Text → Text → ℕ}
    (s : IsServed jobs river k) where
  added-IsServed :
      (job : Job) (river' : List RiverJob)
      → any (has_id job.id) jobs ≡ false
      → job.active ≡ true
      → ((group' id' : Text)
          → count (pending_at group' id') river'
            ≡ count (pending_at group' id') river
              + (if job.id =t id' && job.group_name =t group' then 1 else 0))
      → IsServed (jobs ++ job ∷ []) river' k
  added-IsServed job river' fresh on one = record {
    unique = λ id'. elim (Bool-cases (job.id =t id')) [
      | inl same ↦ ground (
        arith,
        count-append (has_id id') jobs (job ∷ []),
        count-any (has_id job.id) jobs fresh,
        =t→eq job.id id' same,
      )
      | inr other ↦ ground (arith, count-append (has_id id') jobs (job ∷ []), s.unique id')
    ];
    served = λ group' id'. ground (
      arith,
      count-append (is_armed group' id') jobs (job ∷ []),
      one group' id',
      s.served group' id',
    );
  }

  updated-IsUnique :
      (q : Job → Bool) (f : Job → Job)
      → ((j : Job) → (f j).id ≡ j.id)
      → IsUnique (update_jobs q f jobs)
  updated-IsUnique q f keeps id' = omega (
    arith,
    s.unique id',
    count-update_jobs (has_id id') (has_id id') q f jobs λ j. ground (arith, keeps j),
  )

  pub updated-IsServed :
      (q : Job → Bool) (f : Job → Job)
      → ((j : Job)
          → ((f j).id ≡ j.id) × ((f j).group_name ≡ j.group_name) × ((f j).active ≡ j.active))
      → IsServed (update_jobs q f jobs) river k
  updated-IsServed q f keeps = record {
    unique = updated-IsUnique q f (λ j. (keeps j).0);
    served = λ group' id'. omega (
      arith,
      s.served group' id',
      count-update_jobs (is_armed group' id') (is_armed group' id') q f jobs
          λ j. ground (arith, keeps j),
    );
  }

  module _ (group id : Text) (there : count (is_job group id) jobs ≢ 0) where
    set-IsServed :
        (active : Bool) (f : Job → Job) (river' : List RiverJob)
        → ((j : Job)
            → ((f j).id ≡ j.id) × ((f j).group_name ≡ j.group_name) × ((f j).active ≡ active))
        → ((group' id' : Text)
            → count (pending_at group' id') river'
              ≡ count (pending_at group' id') (delete_where (pending_of id) river)
                + (if id =t id' && group =t group' then (if active then 1 else 0) else 0))
        → IsServed (update_jobs (is_job group id) f jobs) river' k
    set-IsServed active f river' sets one = record {
      unique = updated-IsUnique (is_job group id) f (λ j. (sets j).0);
      served = λ group' id'. ground (
        arith,
        armed-set jobs s.unique group id there active f sets group' id',
        one group' id',
        count-cancel id group' id' river,
        s.served group' id',
        elsewhere jobs s.unique group id there group' id',
        =t_flip id id',
        =t_flip group group',
      );
    }

    deleted-IsServed :
        IsServed (delete_where (is_job group id) jobs) (delete_where (pending_of id) river) k
    deleted-IsServed = record {
      unique =
          λ id'. omega (arith, s.unique id', count-delete-le (has_id id') (is_job group id) jobs);
      served = λ group' id'. ground (
        arith,
        armed-delete jobs s.unique group id there group' id',
        count-cancel id group' id' river,
        s.served group' id',
        elsewhere jobs s.unique group id there group' id',
      );
    }

  removed-IsServed :
      (group : Text)
      → IsServed (delete_where (in_group group) jobs) (delete_where (pending_in group) river) k
  removed-IsServed group = record {
    unique = λ id'. omega (arith, s.unique id', count-delete-le (has_id id') (in_group group) jobs);
    served = λ group' id'. elim (Bool-cases (group' =t group)) [
      | inl same ↦ omega (
        arith,
        count-delete_all (is_armed group' id') (in_group group) jobs
            λ j h. ground (arith, =t_same j.group_name group' group),
      )
      | inr other ↦ omega (
        arith,
        count-delete_none (pending_at group' id') (pending_in group) river
            (λ o h. pending_at-in group group' id' o h ∙ other),
        count-delete_none (is_armed group' id') (in_group group) jobs
            (λ j h. ground (arith, =t_same j.group_name group' group)),
        s.served group' id',
      )
    ];
  }

  dropped-IsServed :
      (group name : Text) (gone : Text → Bool)
      → ((id' : Text) → gone id' ≡ any (λ j. is_named group name j && j.id =t id') jobs)
      → IsServed
          (delete_where (is_named group name) jobs)
          (delete_where (occurrence_of group gone) river)
          k
  dropped-IsServed group name gone is = record {
    unique =
        λ id'. omega (arith, s.unique id', count-delete-le (has_id id') (is_named group name) jobs);
    served = λ group' id'. elim (Bool-cases (group' =t group && gone id')) [
      | inl same ↦ ground (arith, armed-drop jobs s.unique group name group' id', is id')
      | inr other ↦ ground (
        arith,
        count-delete_none (pending_at group' id') (occurrence_of group gone) river
            (λ o h. occurrence-is_gone group group' id' gone o h ∙ other),
        armed-drop jobs s.unique group name group' id',
        is id',
        s.served group' id',
      )
    ];
  }

module _ (insert : Insert) (law : IsInsert insert) (parse_duration : Text → Option ℤ)
    (now : ℤ) where
  handle_ok-IsServed :
      (q : Request) (w : World) {k : Text → Text → ℕ}
      → IsServed w.store.jobs w.store.river k
      → (handle insert parse_duration now q w).0 ≡ ok tt
      → let s = (handle insert parse_duration now q w).1.store in IsServed s.jobs s.river k
  handle_ok-IsServed (push_job job) w {k} c h =
      let (job', _, p) = push-ok insert parse_duration now job w h in
      let s' = (handle insert parse_duration now (push_job job) w).1.store in
      subst (λ s. IsServed s.jobs s.river k) (sym p.after)
        (added-IsServed c (set_active job') s'.river p.fresh refl (λ group' id'.
          count-insert insert law w.store.river s'.river job'.id job'.group_name job'.exectime
            job'.exectime group' id' p.inserted))
  handle_ok-IsServed (active_job group id exectime) w {k} c h =
      let (_, a) = active-ok insert now group id exectime w h in
      let s' = (handle insert parse_duration now (active_job group id exectime) w).1.store in
      let at = or_now now exectime in
      subst (λ s. IsServed s.jobs s.river k) (sym a.after)
        (set-IsServed c group id a.known true (λ j. record j { active = true; exectime = at })
          s'.river (λ j. (refl, refl, refl))
          (λ group' id'. count-insert insert law _ s'.river id group at at group' id' a.inserted))
  handle_ok-IsServed (edit_job group id url payload) w {k} c h =
      let (_, after) = edit-ok group id url payload w h in
      subst (λ s. IsServed s.jobs s.river k) (sym after)
        (updated-IsServed c (is_job group id) _ (λ j. (refl, refl, refl)))
  handle_ok-IsServed (pause_job group id) w {k} c h =
      let (known, after) = pause-ok group id w h in
      subst (λ s. IsServed s.jobs s.river k) (sym after)
        (set-IsServed c group id known false _ _ (λ j. (refl, refl, refl))
          (λ group' id'. ground arith))
  handle_ok-IsServed (delete_job group id) w {k} c h =
      let (known, after) = delete-ok group id w h in
      subst (λ s. IsServed s.jobs s.river k) (sym after) (deleted-IsServed c group id known)
  handle_ok-IsServed (delete_named group name) w {k} c h =
      let (n, done, same) = discard-ok (delete_jobs group name) w h in
      let (_, after) = delete_jobs-ok group name w done in
      subst (λ s. IsServed s.jobs s.river k) (sym (ap (λ v. v.store) same ∙ after))
        (dropped-IsServed c group name (deleted_ids group name w.store) (λ _. refl))
  handle_ok-IsServed (register group) w {k} c h =
      let (_, _, after) = register_group-ok group w h in
      subst (λ s. IsServed s.jobs s.river k) (sym after) c
  handle_ok-IsServed (remove group) w {k} c h =
      let (_, after) = remove_group-ok group w h in
      subst (λ s. IsServed s.jobs s.river k) (sym after) (removed-IsServed c group)

  pub handle-IsServed :
      (q : Request) (w : World) {k : Text → Text → ℕ}
      → IsServed w.store.jobs w.store.river k
      → let s = (handle insert parse_duration now q w).1.store in IsServed s.jobs s.river k
  handle-IsServed q w {k} c = elim (ok_or_err (handle insert parse_duration now q w).0) [
    | inl done ↦ handle_ok-IsServed q w c done
    | inr (e, failed) ↦
        subst (λ s. IsServed s.jobs s.river k)
          (sym (handle-err_unchanged insert parse_duration now q w failed)) c
  ]
