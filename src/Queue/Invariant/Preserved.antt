-- ===== src/Queue/Invariant/Preserved.antt =====
-- The statements of the admin calls preserve the invariant of the tables.
use gua.Base.{
  ◌+◌, ◌≡◌, ◌≢◌, ◌∙◌, refl, sym, Bool, true, false, ◌&&◌, some, List, [], ◌∷◌, ◌++◌, Text, ◌=t◌,
  =t→eq, =t_flip, if◌then◌else◌, count, any, Bool-cases, count-append, arith, inl, inr,
}
use gua.Base.Int.{ℤ}
use gua.Queue.Types.{Job}
use gua.Queue.Store.{
  RiverJob, JobArgs, has_id, is_job, pending_of, update_jobs, delete_where, is_pending,
  gua_delivery, Insert, IsInsert,
}
use gua.Queue.Counts.{count-delete-le, count-any, count-update_jobs}
use gua.Queue.Admin.Effects.{args}
use gua.Queue.Invariant.Armed.{elsewhere, armed-set, armed-delete}
use gua.Queue.Invariant.{IsConsistent, pending_at, is_armed, count-cancel}

pub pending_at-new :
    (group' id' : Text) (row : RiverJob) (a : JobArgs)
    → row.kind ≡ gua_delivery a
    → is_pending row.state ≡ true
    → pending_at group' id' row ≡ (a.job_id =t id' && a.group_name =t group')
pending_at-new group' id' row a kind waits = rw kind (rw waits refl)

-- An inserted row is a pending occurrence of its job.
pub count-insert :
    (insert : Insert) (law : IsInsert insert) (rows rows' : List RiverJob) (id group : Text)
    (at time : ℤ) (group' id' : Text)
    → insert rows (args id group at) time ≡ some rows'
    → count (pending_at group' id') rows'
      ≡ count (pending_at group' id') rows + (if id =t id' && group =t group' then 1 else 0)
count-insert insert law rows rows' id group at time group' id' h =
    let (added, kind, waits) = law.adds rows (args id group at) time rows' h in
    let row = law.row rows (args id group at) time in
    rw added (
      ground (
        arith,
        count-append (pending_at group' id') rows (row ∷ []),
        pending_at-new group' id' row (args id group at) kind waits,
      ))

module _ {jobs : List Job} {river : List RiverJob} (c : IsConsistent jobs river) where
  -- `Push`.
  pub added-IsConsistent :
      (job : Job) (river' : List RiverJob)
      → any (has_id job.id) jobs ≡ false
      → job.active ≡ true
      → ((group' id' : Text)
          → count (pending_at group' id') river'
            ≡ count (pending_at group' id') river
              + (if job.id =t id' && job.group_name =t group' then 1 else 0))
      → IsConsistent (jobs ++ job ∷ []) river'
  added-IsConsistent job river' fresh on one = record {
    unique = λ id'. elim (Bool-cases (job.id =t id')) [
      | inl same ↦ ground (
        arith,
        count-append (has_id id') jobs (job ∷ []),
        count-any (has_id job.id) jobs fresh,
        =t→eq job.id id' same,
      )
      | inr other ↦ ground (arith, count-append (has_id id') jobs (job ∷ []), c.unique id')
    ];
    planned = λ group' id'. ground (
      arith,
      count-append (is_armed group' id') jobs (job ∷ []),
      one group' id',
      c.planned group' id',
    );
  }

  -- `Edit`, and any update of the rows that keeps the ids, the groups and the flags.
  pub updated-IsConsistent :
      (q : Job → Bool) (f : Job → Job)
      → ((j : Job)
          → ((f j).id ≡ j.id) × ((f j).group_name ≡ j.group_name) × ((f j).active ≡ j.active))
      → IsConsistent (update_jobs q f jobs) river
  updated-IsConsistent q f keeps = record {
    unique = λ id'. omega (
      arith,
      c.unique id',
      count-update_jobs (has_id id') (has_id id') q f jobs λ j. ground (arith, keeps j),
    );
    planned = λ group' id'.
        c.planned group' id'
        ∙ sym (
            count-update_jobs (is_armed group' id') (is_armed group' id') q f jobs
              λ j. ground (arith, keeps j));
  }

  module _ (group id : Text) (there : count (is_job group id) jobs ≢ 0) where
    -- `Active`: the flag set, and one pending occurrence in place of any other.
    pub activated-IsConsistent :
        (f : Job → Job) (river' : List RiverJob)
        → ((j : Job)
            → ((f j).id ≡ j.id) × ((f j).group_name ≡ j.group_name) × ((f j).active ≡ true))
        → ((group' id' : Text)
            → count (pending_at group' id') river'
              ≡ count (pending_at group' id') (delete_where (pending_of id) river)
                + (if id =t id' && group =t group' then 1 else 0))
        → IsConsistent (update_jobs (is_job group id) f jobs) river'
    activated-IsConsistent f river' sets one = record {
      unique = λ id'. omega (
        arith,
        c.unique id',
        count-update_jobs (has_id id') (has_id id') (is_job group id) f jobs
            λ j. ground (arith, sets j),
      );
      planned = λ group' id'. ground (
        arith,
        armed-set jobs c.unique group id there true f sets group' id',
        one group' id',
        count-cancel id group' id' river,
        c.planned group' id',
        elsewhere jobs c.unique group id there group' id',
        =t_flip id id',
        =t_flip group group',
      );
    }

    -- `Pause`: the flag cleared, and no pending occurrence left.
    pub paused-IsConsistent :
        (f : Job → Job)
        → ((j : Job)
            → ((f j).id ≡ j.id) × ((f j).group_name ≡ j.group_name) × ((f j).active ≡ false))
        → IsConsistent (update_jobs (is_job group id) f jobs) (delete_where (pending_of id) river)
    paused-IsConsistent f sets = record {
      unique = λ id'. omega (
        arith,
        c.unique id',
        count-update_jobs (has_id id') (has_id id') (is_job group id) f jobs
            λ j. ground (arith, sets j),
      );
      planned = λ group' id'. ground (
        arith,
        armed-set jobs c.unique group id there false f sets group' id',
        count-cancel id group' id' river,
        c.planned group' id',
        elsewhere jobs c.unique group id there group' id',
      );
    }

    -- `Delete`: the row gone, and no pending occurrence left.
    pub deleted-IsConsistent :
        IsConsistent (delete_where (is_job group id) jobs) (delete_where (pending_of id) river)
    deleted-IsConsistent = record {
      unique =
          λ id'. omega (arith, c.unique id', count-delete-le (has_id id') (is_job group id) jobs);
      planned = λ group' id'. ground (
        arith,
        armed-delete jobs c.unique group id there group' id',
        count-cancel id group' id' river,
        c.planned group' id',
        elsewhere jobs c.unique group id there group' id',
      );
    }
