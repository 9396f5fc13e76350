-- ===== src/Queue/Invariant.antt =====
-- The invariant of the tables between two calls of delayquene/riverquene.go: gua_jobs has one row for
-- an id at most, and river_job has one pending occurrence for each active job, and no other.

pub mod Armed
pub mod Preserved
pub mod Groups
pub mod Busy
use gua.Base.{
  ℕ, zero, suc, ◌+◌, ◌≤◌, ◌≡◌, ◌≢◌, refl, Bool, true, false, ◌&&◌, not, Option, none, some, List,
  [], ◌∷◌, ◌++◌, ◌∙◌, Text, ◌=t◌, =t→eq, =t_same, if◌then◌else◌, count, any, Bool-cases,
  count-append, arith, inl, inr,
}
use gua.Base.Int.{ℤ}
use gua.Queue.Types.{Job}
use gua.Queue.Store.{
  RiverJob, Store, has_id, is_job, pending_of, pending_in, update_jobs, delete_where, for_job,
  for_group, Kind, gua_delivery, gua_history_prune,
}
use gua.Queue.Counts.{
  count-delete_all, count-delete_none, count-le-count, count-delete-le, count-any, count-disjoint,
  count-update_jobs,
}

-- A pending occurrence of the job `id` in `group`, and that job when it is active.
abbrev pub pending_at : Text → Text → RiverJob → Bool
pending_at group id o = pending_of id o && pending_in group o

abbrev pub is_armed : Text → Text → Job → Bool
is_armed group id j = is_job group id j && j.active

-- An id has one job at most.
abbrev pub IsUnique : List Job → Type 0
IsUnique jobs = (id : Text) → count (has_id id) jobs ≤ 1

pub record IsConsistent (jobs : List Job) (river : List RiverJob) : Type 0 where
  pub unique : IsUnique jobs
  pub planned :
      (group id : Text) → count (pending_at group id) river ≡ count (is_armed group id) jobs

for_job-same : (id id' : Text) (k : Kind) → for_job id' k ≡ true → for_job id k ≡ (id' =t id)
for_job-same id id' (gua_delivery a) h = =t_same a.job_id id' id h
for_job-same id id' gua_history_prune h = cc

for_group-same :
    (group group' : Text) (k : Kind)
    → for_group group' k ≡ true
    → for_group group k ≡ (group' =t group)
for_group-same group group' (gua_delivery a) h = =t_same a.group_name group' group h
for_group-same group group' gua_history_prune h = cc

-- What the pending occurrences of one job are for the tests on another.
pub pending_at-of :
    (id group' id' : Text) (o : RiverJob)
    → pending_at group' id' o ≡ true
    → pending_of id o ≡ (id' =t id)
pending_at-of id group' id' o h = ground (arith, for_job-same id id' o.kind)

pub pending_at-in :
    (group group' id' : Text) (o : RiverJob)
    → pending_at group' id' o ≡ true
    → pending_in group o ≡ (group' =t group)
pending_at-in group group' id' o h = ground (arith, for_group-same group group' o.kind)

-- And the same of a job's row.
pub is_armed-of :
    (group id group' id' : Text) (j : Job)
    → is_job group' id' j ≡ true
    → is_job group id j ≡ ((id' =t id) && (group' =t group))
is_armed-of group id group' id' j h =
    ground (arith, =t_same j.id id' id, =t_same j.group_name group' group)

-- Cancelling the occurrences of `id`.
pub count-cancel :
    (id group' id' : Text) (river : List RiverJob)
    → count (pending_at group' id') (delete_where (pending_of id) river)
      ≡ (if id' =t id then 0 else count (pending_at group' id') river)
count-cancel id group' id' river = elim (Bool-cases (id' =t id)) [
  | inl same ↦ rw same (count-delete_all _ _ river λ o h. pending_at-of id group' id' o h ∙ same)
  | inr other ↦
      rw other (count-delete_none _ _ river λ o h. pending_at-of id group' id' o h ∙ other)
]

-- A job that is there is the only one with its id: none is armed in another group.
pub armed_elsewhere :
    (jobs : List Job) (group id group' id' : Text)
    → IsUnique jobs
    → count (is_job group id) jobs ≢ 0
    → (id' =t id) ≡ true
    → (group' =t group) ≡ false
    → count (is_armed group' id') jobs ≡ 0
armed_elsewhere jobs group id group' id' u there same other =
    let both =
      count-disjoint (is_armed group' id') (is_job group id) (has_id id) jobs
        (λ j h. is_armed-of group id group' id' j (ground arith) ∙ ground arith)
        (λ j h. ground (arith, =t_same j.id id' id)) (λ j h. ground arith) in
    omega (arith, both, u id, there)

pub lone_job :
    (jobs : List Job) (group id : Text)
    → IsUnique jobs
    → count (is_job group id) jobs ≢ 0
    → count (is_job group id) jobs ≡ 1
lone_job jobs group id u there =
    omega
      (arith, u id, there, count-le-count (is_job group id) (has_id id) jobs λ j h. ground arith)
