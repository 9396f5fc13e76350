-- ===== src/Queue/Spec.antt =====
-- What the interface Quene of delayquene/types.go promises of definitions and groups: a map from ids to
-- definitions and a set of groups, which each request changes at once, or refuses.
pub mod Lookups
pub mod Handled
pub mod Accepts
use gua.Base.{
  ◌≡◌, Bool, true, false, ◌&&◌, ◌||◌, not, Option, none, some, Text, ◌=t◌, if◌then◌else◌, Result,
  ok, err, find, any,
}
use gua.Base.Int.{ℤ}
use gua.Queue.Types.{Error, Job, split_request_url, validate_name}
use gua.Queue.Validate.{or_now, is_negative, validate_push}
use gua.Queue.Store.{Store, has_id, is_job, in_group}
use gua.Queue.Admin.{is_named}
use gua.Queue.Requests.{
  Request, push_job, active_job, edit_job, pause_job, delete_job, delete_named, register, remove,
}

pub record Scheduler : Type 0 where
  pub groups : Text → Bool
  pub jobs : Text → Option Job

-- The scheduler that the tables stand for, whatever the order of their rows.
abbrev pub view : Store → Scheduler
view s = record {
  groups = λ group. any (λ g. g =t group) s.groups;
  jobs = λ id. find (has_id id) s.jobs;
}

abbrev pub per_job : (Job → Option Job) → Option Job → Option Job
per_job f none = none
per_job f (some j) = f j

-- A definition of the group is stored under the id.
abbrev pub IsKnown : Text → Text → Scheduler → Type 0
IsKnown group id s = (j : Job) × (s.jobs id ≡ some j) × ((j.group_name =t group) ≡ true)

abbrev pushed : Result Error Job → Scheduler → Text → Option Job
pushed (err e) s id = s.jobs id
pushed (ok job) s id = if job.id =t id then some (record job { active = true }) else s.jobs id

module _ (parse_duration : Text → Option ℤ) (now : ℤ) where
  -- What a request makes of one definition: none where it is dropped.
  abbrev pub effect : Request → Job → Option Job
  effect (active_job group id exectime) j =
      some (
        if is_job group id j then record j { active = true; exectime = or_now now exectime } else j)
  effect (edit_job group id url payload) j =
      some (if is_job group id j then record j { request_url = url; payload = payload } else j)
  effect (pause_job group id) j =
      some (if is_job group id j then record j { active = false } else j)
  effect (delete_job group id) j = if is_job group id j then none else some j
  effect (delete_named group name) j = if is_named group name j then none else some j
  effect (remove group) j = if in_group group j then none else some j
  effect (push_job job) j = some j
  effect (register group) j = some j

  abbrev pub jobs_after : Request → Scheduler → Text → Option Job
  jobs_after (push_job job) s id = pushed (validate_push parse_duration now job) s id
  jobs_after q s id = per_job (effect q) (s.jobs id)

  abbrev pub groups_after : Request → Scheduler → Text → Bool
  groups_after (register group) s g = s.groups g || group =t g
  groups_after (remove group) s g = s.groups g && not (g =t group)
  groups_after _ s g = s.groups g

  -- When a request is not refused.
  abbrev pub IsAllowed : Request → Scheduler → Type 0
  IsAllowed (push_job job) s =
      (job' : Job) × (validate_push parse_duration now job ≡ ok job')
      × (s.groups job'.group_name ≡ true)
      × (s.jobs job'.id ≡ none)
  IsAllowed (active_job group id exectime) s = (is_negative exectime ≡ false) × IsKnown group id s
  IsAllowed (edit_job group id url payload) s =
      (target : Text × Text) × (split_request_url url ≡ ok target) × IsKnown group id s
  IsAllowed (pause_job group id) s = IsKnown group id s
  IsAllowed (delete_job group id) s = IsKnown group id s
  IsAllowed (delete_named group name) s = Unit
  IsAllowed (register group) s = (validate_name group ≡ ok tt) × (s.groups group ≡ false)
  IsAllowed (remove group) s = s.groups group ≡ true

  pub record Refines (q : Request) (s s' : Scheduler) : Type 0 where
    pub allowed : IsAllowed q s
    pub groups : (group : Text) → s'.groups group ≡ groups_after q s group
    pub jobs : (id : Text) → s'.jobs id ≡ jobs_after q s id
