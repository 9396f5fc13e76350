-- ===== src/Queue/Invariant/Groups.antt =====
-- The statements on whole groups, of DeleteJobs and RemoveGroup, preserve the invariant of the tables.
use gua.Base.{
  ◌≡◌, ◌∙◌, sym, ap, Bool, true, ◌&&◌, List, Text, ◌=t◌, =t→eq, =t_same, any, Bool-cases, arith,
  inl, inr,
}
use gua.Queue.Types.{Job}
use gua.Queue.Store.{
  RiverJob, has_id, in_group, pending_in, delete_where, Kind, for_job, gua_history_prune,
  gua_delivery,
}
use gua.Queue.Counts.{count-delete_all, count-delete_none, count-delete-le}
use gua.Queue.Admin.{args_in, is_named, occurrence_of}
use gua.Queue.Invariant.Armed.{armed-drop}
use gua.Queue.Invariant.{IsConsistent, pending_at, pending_at-in}

args_in-same :
    (gone : Text → Bool) (id' : Text) (k : Kind) → for_job id' k ≡ true → args_in gone k ≡ gone id'
args_in-same gone id' (gua_delivery a) h = ap gone (=t→eq a.job_id id' h)
args_in-same gone id' gua_history_prune h = cc

pub occurrence-is_gone :
    (group group' id' : Text) (gone : Text → Bool) (o : RiverJob)
    → pending_at group' id' o ≡ true
    → occurrence_of group gone o ≡ (group' =t group && gone id')
occurrence-is_gone group group' id' gone o h =
    ground (arith, pending_at-in group group' id' o h, args_in-same gone id' o.kind)

module _ {jobs : List Job} {river : List RiverJob} (c : IsConsistent jobs river) where
  -- `RemoveGroup`.
  pub removed-IsConsistent :
      (group : Text)
      → IsConsistent (delete_where (in_group group) jobs) (delete_where (pending_in group) river)
  removed-IsConsistent group = record {
    unique = λ id'. omega (arith, c.unique id', count-delete-le (has_id id') (in_group group) jobs);
    planned = λ group' id'. elim (Bool-cases (group' =t group)) [
      | inl same ↦
          count-delete_all _ _ river (λ o h. pending_at-in group group' id' o h ∙ same)
          ∙ sym (count-delete_all _ _ jobs λ j h. ground (arith, =t_same j.group_name group' group))
      | inr other ↦
          count-delete_none _ _ river (λ o h. pending_at-in group group' id' o h ∙ other)
          ∙ c.planned group' id'
          ∙ sym
              (count-delete_none _ _ jobs λ j h. ground (arith, =t_same j.group_name group' group))
    ];
  }

  -- `DeleteJobs`.
  pub dropped-IsConsistent :
      (group name : Text) (gone : Text → Bool)
      → ((id' : Text) → gone id' ≡ any (λ j. is_named group name j && j.id =t id') jobs)
      → IsConsistent
          (delete_where (is_named group name) jobs)
          (delete_where (occurrence_of group gone) river)
  dropped-IsConsistent group name gone is = record {
    unique =
        λ id'. omega (arith, c.unique id', count-delete-le (has_id id') (is_named group name) jobs);
    planned = λ group' id'. elim (Bool-cases (group' =t group && gone id')) [
      | inl same ↦
          count-delete_all _ _ river (λ o h. occurrence-is_gone group group' id' gone o h ∙ same)
          ∙ ground (arith, armed-drop jobs c.unique group name group' id', is id')
      | inr other ↦
          count-delete_none _ _ river (λ o h. occurrence-is_gone group group' id' gone o h ∙ other)
          ∙ c.planned group' id'
          ∙ ground (arith, armed-drop jobs c.unique group name group' id', is id')
    ];
  }
