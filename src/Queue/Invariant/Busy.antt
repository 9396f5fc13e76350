-- ===== src/Queue/Invariant/Busy.antt =====
-- The tables while an occurrence of a job is running, so that none of the job is pending: what the
-- statements at the end of a run make of them.
use gua.Base.{
  ◌+◌, ◌≤◌, ◌≡◌, ◌∙◌, sym, Bool, true, false, ◌&&◌, some, List, [], ◌∷◌, Text, ◌=t◌, =t→eq, =t_same,
  =t_flip, if◌then◌else◌, count, find, any, Bool-cases, arith, inl, inr,
}
use gua.Queue.Types.{Job}
use gua.Queue.Store.{RiverJob, has_id, update_jobs, delete_where}
use gua.Queue.Counts.{
  count-delete_all, count-delete_none, count-le-count, count-delete-le, count-any,
  count-update_jobs, count_and,
}
use gua.Queue.Invariant.{IsConsistent, pending_at, is_armed}

-- The invariant for every other job; of the job `id` no occurrence is pending.
pub record IsBusy (id : Text) (jobs : List Job) (river : List RiverJob) : Type 0 where
  pub unique : (id' : Text) → count (has_id id') jobs ≤ 1
  pub idle : (group' : Text) → count (pending_at group' id) river ≡ 0
  pub others :
      (group' id' : Text)
      → (id' =t id) ≡ false
      → count (pending_at group' id') river ≡ count (is_armed group' id') jobs

abbrev pub is_live : Text → Job → Bool
is_live id j = has_id id j && j.active

-- The job found by its id is the only one that can be armed.
pub lone_armed :
    (id group' : Text) (def : Job) (jobs : List Job)
    → find (has_id id) jobs ≡ some def
    → def.active ≡ true
    → count (has_id id) jobs ≤ 1
    → count (is_armed group' id) jobs ≡ (if def.group_name =t group' then 1 else 0)
lone_armed id group' def [] f on one = cc
lone_armed id group' def (j ∷ js) f on one = elim (Bool-cases (j.id =t id)) [
  | inl same ↦
      let found : j ≡ def = ground arith in
      ground (
        arith,
        found,
        same,
        count-le-count (is_armed group' id) (has_id id) js (λ j h. ground arith),
      )
  | inr other ↦ ground (arith, other, lone_armed id group' def js)
]

module _ (id : Text) {jobs : List Job} {river : List RiverJob} (b : IsBusy id jobs river) where
  pub skipped-IsConsistent : any (is_live id) jobs ≡ false → IsConsistent jobs river
  skipped-IsConsistent no_live = record {
    unique = b.unique;
    planned = λ group' id'. elim (Bool-cases (id' =t id)) [
      | inl same ↦
          let e = =t→eq id' id same in
          rw e (
            ground (
              arith,
              b.idle group',
              count-any (is_live id) jobs no_live,
              count-le-count (is_armed group' id) (is_live id) jobs (λ j h. ground arith),
            ))
      | inr other ↦ b.others group' id' other
    ];
  }

  pub dropped_once-IsConsistent : IsConsistent (delete_where (has_id id) jobs) river
  dropped_once-IsConsistent = record {
    unique = λ id'. omega (arith, b.unique id', count-delete-le (has_id id') (has_id id) jobs);
    planned = λ group' id'. elim (Bool-cases (id' =t id)) [
      | inl same ↦
          let e = =t→eq id' id same in
          rw e (
            b.idle group'
            ∙ sym (count-delete_all (is_armed group' id) (has_id id) jobs λ j h. ground arith))
      | inr other ↦
          b.others group' id' other
          ∙ sym (
              count-delete_none (is_armed group' id') (has_id id) jobs
                λ j h. ground (arith, =t_same j.id id' id))
    ];
  }

  abbrev cleared : Job → Job
  cleared j = record j { active = false }

  pub halted-IsConsistent :
      IsConsistent (update_jobs (has_id id) (λ j. record j { active = false }) jobs) river
  halted-IsConsistent = record {
    unique = λ id'. omega (
      arith,
      b.unique id',
      count-update_jobs (has_id id') (has_id id') (has_id id) cleared jobs λ j. ground arith,
    );
    planned = λ group' id'. elim (Bool-cases (id' =t id)) [
      | inl same ↦
          let e = =t→eq id' id same in
          rw e (
            b.idle group'
            ∙ sym (
                count-update_jobs (is_armed group' id) (λ j. is_armed group' id j && false)
                  (has_id id) cleared jobs (λ j. ground arith)
                ∙ count_and (is_armed group' id) false jobs))
      | inr other ↦
          b.others group' id' other
          ∙ sym (
              count-update_jobs (is_armed group' id') (is_armed group' id') (has_id id) cleared jobs
                λ j. ground (arith, =t_same j.id id' id))
    ];
  }

  pub rescheduled-IsConsistent :
      (def : Job) (q : Job → Bool) (f : Job → Job) (river' : List RiverJob)
      → find (has_id id) jobs ≡ some def
      → def.active ≡ true
      → ((j : Job)
          → ((f j).id ≡ j.id) × ((f j).group_name ≡ j.group_name) × ((f j).active ≡ j.active))
      → ((group' id' : Text)
          → count (pending_at group' id') river'
            ≡ count (pending_at group' id') river
              + (if id =t id' && def.group_name =t group' then 1 else 0))
      → IsConsistent (update_jobs q f jobs) river'
  rescheduled-IsConsistent def q f river' found on keeps one = record {
    unique = λ id'. omega (
      arith,
      b.unique id',
      count-update_jobs (has_id id') (has_id id') q f jobs λ j. ground (arith, keeps j),
    );
    planned = λ group' id'.
        one group' id'
        ∙ planned_before group' id'
        ∙ sym (
            count-update_jobs (is_armed group' id') (is_armed group' id') q f jobs
              λ j. ground (arith, keeps j));
  }
    where
      planned_before :
          (group' id' : Text)
          → count (pending_at group' id') river
              + (if id =t id' && def.group_name =t group' then 1 else 0)
            ≡ count (is_armed group' id') jobs
      planned_before group' id' = elim (Bool-cases (id' =t id)) [
        | inl same ↦
            let e = =t→eq id' id same in
            ground (
              arith,
              e,
              same,
              =t_flip id id',
              b.idle group',
              lone_armed id group' def jobs found on (b.unique id),
            )
        | inr other ↦ ground (arith, other, =t_flip id id', b.others group' id' other)
      ]
