-- ===== src/System/Alive.antt =====
-- The occurrence that a run of guaDeliverWorker.Work carries, and the tables under the statements at the
-- end of a run.
use gua.Base.{
  ℕ, ◌≤◌, ◌≡◌, Bool, true, false, ◌&&◌, not, List, Text, ◌=t◌, =t→eq, =t_same, any, Bool-cases,
  arith, inl, inr,
}
use gua.Queue.Types.{Job}
use gua.Queue.Store.{RiverJob, JobArgs, has_id, update_jobs, delete_where}
use gua.Queue.Counts.{
  count-delete_all, count-delete_none, count-le-count, count-delete-le, count-any,
  count-update_jobs, count_and,
}
use gua.Queue.Invariant.{is_armed}
use gua.Queue.Invariant.Busy.{is_live}
use gua.Queue.Worker.Ends.{is_over}
use gua.System.{Phase, fetched, loaded, delivered, returned}
use gua.System.Served.{IsServed}

abbrev pub is_for : Text → Text → JobArgs → Bool
is_for group id a = a.job_id =t id && a.group_name =t group

-- Whether the occurrence that a run took is still to be settled by it, or to be retried.
abbrev pub is_alive : RiverJob → JobArgs → Phase → Bool
is_alive row a fetched = true
is_alive row a (loaded def) = def.id =t a.job_id && def.group_name =t a.group_name
is_alive row a (delivered def outcome) = def.id =t a.job_id && def.group_name =t a.group_name
is_alive row a (returned r) = not (is_over row r)

module _ {jobs : List Job} {river : List RiverJob} {k k' : Text → Text → ℕ}
    (s : IsServed jobs river k) (id : Text)
    (others : (group' id' : Text) → (id' =t id) ≡ false → k group' id' ≤ k' group' id') where
  -- No job with the id is active.
  pub idle-IsServed : any (is_live id) jobs ≡ false → IsServed jobs river k'
  idle-IsServed no_live = record {
    unique = s.unique;
    served = λ group' id'. elim (Bool-cases (id' =t id)) [
      | inl same ↦
          let e = =t→eq id' id same in
          rw e (
            ground (
              arith,
              count-any (is_live id) jobs no_live,
              count-le-count (is_armed group' id) (is_live id) jobs (λ j h. ground arith),
            ))
      | inr other ↦ omega (arith, s.served group' id', others group' id' other)
    ];
  }

  pub dropped_once-IsServed : IsServed (delete_where (has_id id) jobs) river k'
  dropped_once-IsServed = record {
    unique = λ id'. omega (arith, s.unique id', count-delete-le (has_id id') (has_id id) jobs);
    served = λ group' id'. elim (Bool-cases (id' =t id)) [
      | inl same ↦
          let e = =t→eq id' id same in
          rw e (
            omega
              (arith, count-delete_all (is_armed group' id) (has_id id) jobs λ j h. ground arith))
      | inr other ↦ omega (
        arith,
        s.served group' id',
        others group' id' other,
        count-delete_none (is_armed group' id') (has_id id) jobs
            λ j h. ground (arith, =t_same j.id id' id),
      )
    ];
  }

  pub halted-IsServed :
      IsServed (update_jobs (has_id id) (λ j. record j { active = false }) jobs) river k'
  halted-IsServed =
      let off = λ (j : Job). record j { active = false } in
      record {
        unique = λ id'. omega (
          arith,
          s.unique id',
          count-update_jobs (has_id id') (has_id id') (has_id id) off jobs λ j. ground arith,
        );
        served = λ group' id'. elim (Bool-cases (id' =t id)) [
          | inl same ↦
              let e = =t→eq id' id same in
              rw e (
                omega (
                  arith,
                  count-update_jobs (is_armed group' id) (λ j. is_armed group' id j && false)
                      (has_id id) off jobs λ j. ground arith,
                  count_and (is_armed group' id) false jobs,
                ))
          | inr other ↦ omega (
            arith,
            s.served group' id',
            others group' id' other,
            count-update_jobs (is_armed group' id') (is_armed group' id') (has_id id) off jobs
                λ j. ground (arith, =t_same j.id id' id),
          )
        ];
      }
