-- ===== src/Queue/Invariant/Armed.antt =====
-- Armed jobs under the statements that change the flags of jobs or delete them, where ids are unique.
use gua.Base.{
  ◌≡◌, ◌≢◌, ◌∙◌, refl, Bool, true, false, ◌&&◌, not, List, Text, ◌=t◌, =t→eq, =t_same,
  if◌then◌else◌, count, any, Bool-cases, arith, inl, inr,
}
use gua.Queue.Types.{Job}
use gua.Queue.Store.{has_id, is_job, update_jobs, delete_where}
use gua.Queue.Counts.{
  count-delete_all, count-delete_none, count-le-count, count-any, count-disjoint, count-update_jobs,
  count_and, any-count, count-delete_where, count_split,
}
use gua.Queue.Admin.{is_named}
use gua.Queue.Invariant.{IsUnique, is_armed, is_armed-of, armed_elsewhere, lone_job}

module _ (jobs : List Job) (u : IsUnique jobs) where
  module _ (group id : Text) (there : count (is_job group id) jobs ≢ 0) where
    -- The other jobs with the id, in whatever group, are none.
    pub elsewhere :
        (group' id' : Text)
        → (id' =t id) ≡ true
        → (group' =t group) ≡ false
        → count (is_armed group' id') jobs ≡ 0
    elsewhere group' id' = armed_elsewhere jobs group id group' id' u there

    -- The statement of `Pause` on gua_jobs, and that of `Active`.
    pub armed-set :
        (active : Bool) (f : Job → Job)
        → ((j : Job)
            → ((f j).id ≡ j.id) × ((f j).group_name ≡ j.group_name) × ((f j).active ≡ active))
        → (group' id' : Text)
        → count (is_armed group' id') (update_jobs (is_job group id) f jobs) ≡ (
            if id' =t id && group' =t group
            then (if active then 1 else 0)
            else count (is_armed group' id') jobs)
    armed-set active f sets group' id' = elim (Bool-cases (id' =t id && group' =t group)) [
      | inl same ↦
          count-update_jobs (is_armed group' id') (λ j. is_job group id j && active)
            (is_job group id) f jobs
            (λ j.
              ground
                (arith, sets j, =t→eq id' id (ground arith), =t→eq group' group (ground arith)))
          ∙ rw same (
              count_and (is_job group id) active jobs
              ∙ ground (arith, lone_job jobs group id u there))
      | inr other ↦
          count-update_jobs (is_armed group' id') (is_armed group' id') (is_job group id) f jobs
            (λ j. ground (arith, sets j, is_armed-of group id group' id' j))
          ∙ rw other refl
    ]

    pub armed-delete :
        (group' id' : Text)
        → count (is_armed group' id') (delete_where (is_job group id) jobs)
          ≡ (if id' =t id && group' =t group then 0 else count (is_armed group' id') jobs)
    armed-delete group' id' = elim (Bool-cases (id' =t id && group' =t group)) [
      | inl same ↦
          count-delete_all _ _ jobs (λ j h. is_armed-of group id group' id' j (ground arith) ∙ same)
          ∙ rw same refl
      | inr other ↦
          count-delete_none _ _ jobs
            (λ j h. is_armed-of group id group' id' j (ground arith) ∙ other)
          ∙ rw other refl
    ]

  -- Of the jobs with an id in the group, `DeleteJobs` removes all or none.
  pub armed-drop :
      (group name group' id' : Text)
      → count (is_armed group' id') (delete_where (is_named group name) jobs) ≡ (
          if group' =t group && any (λ j. is_named group name j && j.id =t id') jobs
          then 0
          else count (is_armed group' id') jobs)
  armed-drop group name group' id' = elim (Bool-cases (group' =t group)) [
    | inl same ↦ in_it group' id' same
    | inr other ↦
        count-delete_none _ _ jobs (λ j h. ground (arith, =t_same j.group_name group' group))
        ∙ rw other refl
  ]
    where
      in_it :
          (group' id' : Text)
          → (group' =t group) ≡ true
          → count (is_armed group' id') (delete_where (is_named group name) jobs) ≡ (
              if group' =t group && any (λ j. is_named group name j && j.id =t id') jobs
              then 0
              else count (is_armed group' id') jobs)
      in_it group' id' same =
          let is_gone = λ (j : Job). is_named group name j && j.id =t id' in
          let stays = λ (j : Job). is_armed group' id' j && not (is_named group name j) in
          let goes = λ (j : Job). is_armed group' id' j && is_named group name j in
          ground (
            arith,
            same,
            u id',
            count-delete_where (is_armed group' id') (is_named group name) jobs,
            count-disjoint stays is_gone (has_id id') jobs (λ j h. ground arith)
                (λ j h. ground arith) (λ j h. ground arith),
            any-count is_gone jobs,
            count-any is_gone jobs,
            count_split (is_armed group' id') (is_named group name) jobs,
            count-le-count goes is_gone jobs (λ j h. ground arith),
          )
