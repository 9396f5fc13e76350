-- ===== src/Queue/Store.antt =====
-- The tables of delayquene/riverquene.go (migrate): gua_groups, gua_jobs and gua_executions, and of
-- River's river_job the columns that the SQL of that file reads. What River itself does to that table
-- is a parameter.
use gua.Base.{
  ℕ, Bool, true, false, ◌&&◌, not, ◌≡◌, Option, some, List, [], ◌∷◌, ◌++◌, Text, ◌=t◌,
  if◌then◌else◌, keep,
}
use gua.Base.Int.{ℤ}
use gua.Queue.Types.{Job, HistoryEntry}

pub data JobState : Type 0 where
  available scheduled retryable pending running completed cancelled discarded : JobState

-- `state IN pendingStates`.
abbrev pub is_pending : JobState → Bool
is_pending available = true
is_pending scheduled = true
is_pending retryable = true
is_pending pending = true
is_pending running = false
is_pending completed = false
is_pending cancelled = false
is_pending discarded = false

abbrev pub is_running : JobState → Bool
is_running running = true
is_running _ = false

abbrev pub is_retryable : JobState → Bool
is_retryable retryable = true
is_retryable _ = false

-- `guaJobArgs`, the arguments of a row of kind `gua_delivery`.
pub record JobArgs : Type 0 where
  pub job_id : Text
  pub group_name : Text
  pub plan_time : ℤ

-- A row of river_job: an occurrence of a job, or a run of the history prune.
pub data Kind : Type 0 where
  gua_delivery : JobArgs → Kind
  gua_history_prune : Kind

pub record RiverJob : Type 0 where
  pub id : ℕ
  pub kind : Kind
  pub state : JobState
  pub attempt : ℕ
  pub max_attempts : ℕ

pub record Store : Type 0 where
  pub groups : List Text
  pub jobs : List Job
  pub river : List RiverJob
  pub executions : List HistoryEntry
  pub next_seq : ℕ

abbrev pub init : Store
init = record { groups = []; jobs = []; river = []; executions = []; next_seq = 1 }

-- `WHERE id = $1` and `WHERE id = $1 AND group_name = $2`.
abbrev pub has_id : Text → Job → Bool
has_id id j = j.id =t id

abbrev pub is_job : Text → Text → Job → Bool
is_job group id j = j.id =t id && j.group_name =t group

abbrev pub in_group : Text → Job → Bool
in_group group j = j.group_name =t group

abbrev pub for_job : Text → Kind → Bool
for_job id (gua_delivery a) = a.job_id =t id
for_job id gua_history_prune = false

abbrev pub for_group : Text → Kind → Bool
for_group group (gua_delivery a) = a.group_name =t group
for_group group gua_history_prune = false

-- The pending occurrences of a job, by its id, and of a group.
abbrev pub pending_of : Text → RiverJob → Bool
pending_of id o = is_pending o.state && for_job id o.kind

abbrev pub pending_in : Text → RiverJob → Bool
pending_in group o = is_pending o.state && for_group group o.kind

-- `UPDATE gua_jobs SET … WHERE …`.
abbrev pub update_jobs : (Job → Bool) → (Job → Job) → List Job → List Job
update_jobs p f [] = []
update_jobs p f (j ∷ js) = (if p j then f j else j) ∷ update_jobs p f js

-- `DELETE FROM … WHERE …`.
abbrev pub delete_where {ℓ} : {A : Type ℓ} → (A → Bool) → List A → List A
delete_where p = keep (λ x. not (p x))

-- Inserting an occurrence is River's `InsertTx`: the rows before, the arguments, the time.
abbrev pub Insert : Type 0
Insert = List RiverJob → JobArgs → ℤ → Option (List RiverJob)

-- What River documents of `InsertTx`: unless it fails, it adds one row of the kind and arguments
-- given, which waits to run, and changes no other.
pub record IsInsert (insert : Insert) : Type 0 where
  pub row : List RiverJob → JobArgs → ℤ → RiverJob
  pub adds :
      (rows : List RiverJob) (args : JobArgs) (at : ℤ) (rows' : List RiverJob)
      → insert rows args at ≡ some rows'
      → (rows' ≡ rows ++ row rows args at ∷ [])
        × ((row rows args at).kind ≡ gua_delivery args)
        × (is_pending (row rows args at).state ≡ true)
