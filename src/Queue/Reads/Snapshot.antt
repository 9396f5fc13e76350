-- ===== src/Queue/Reads/Snapshot.antt =====
-- Stats of delayquene/riverquene.go beside the invariant of Queue/Invariant.
use gua.Base.{
  ◌≤◌, ◌≡◌, refl, Bool, true, false, ◌&&◌, List, [], ◌∷◌, Text, =t_refl, =t_same, ok, count,
  nth-count, count-nth, remove_at, Bool-cases, inl, inr, arith,
}
use gua.Base.Int.{ℤ}
use gua.Queue.Types.{Job, Stats}
use gua.Queue.Store.{
  RiverJob, JobArgs, Kind, gua_delivery, gua_history_prune, is_pending, is_retryable,
}
use gua.Queue.Monad.{World, query}
use gua.Queue.Counts.{count-le-count}
use gua.Queue.Invariant.{pending_at, is_armed, IsConsistent}
use gua.Queue.Reads.{is_delivery, stats}

abbrev waits : RiverJob → Bool
waits o = is_delivery o.kind && is_pending o.state

abbrev Planned : List RiverJob → List Job → Type 0
Planned rows jobs =
    (group id : Text) → count (pending_at group id) rows ≡ count (is_armed group id) jobs

-- Rows that do not wait are no pending occurrence of any job.
idle-pending_at : (group id : Text) (o : RiverJob) → waits o ≡ false → pending_at group id o ≡ false
idle-pending_at group id o idle = by_kind o.kind refl
  where
    by_kind : (k : Kind) → o.kind ≡ k → pending_at group id o ≡ false
    by_kind (gua_delivery a) is = ground (arith, is, idle)
    by_kind gua_history_prune is = ground (arith, is)

waiting-args :
    (o : RiverJob)
    → waits o ≡ true
    → (a : JobArgs) × (o.kind ≡ gua_delivery a) × (is_pending o.state ≡ true)
waiting-args o w = by_kind o.kind refl
  where
    by_kind :
        (k : Kind)
        → o.kind ≡ k
        → (a : JobArgs) × (o.kind ≡ gua_delivery a) × (is_pending o.state ≡ true)
    by_kind (gua_delivery a) is = (a, is, ground (arith, is))
    by_kind gua_history_prune is = absurd (ground (arith, is))

-- The occurrence of an armed job is one for exactly the tests that the job passes.
pending_at-is_armed :
    (o : RiverJob) (a : JobArgs) (j : Job) (group id : Text)
    → o.kind ≡ gua_delivery a
    → is_pending o.state ≡ true
    → is_armed a.group_name a.job_id j ≡ true
    → pending_at group id o ≡ is_armed group id j
pending_at-is_armed o a j group id is waiting armed =
    ground (arith, is, =t_same j.id a.job_id id, =t_same j.group_name a.group_name group)

pending_at-own :
    (o : RiverJob) (a : JobArgs)
    → o.kind ≡ gua_delivery a
    → is_pending o.state ≡ true
    → pending_at a.group_name a.job_id o ≡ true
pending_at-own o a is waiting = ground (arith, is, =t_refl a.job_id, =t_refl a.group_name)

none_active :
    (jobs : List Job)
    → ((group id : Text) → 0 ≡ count (is_armed group id) jobs)
    → 0 ≡ count (λ (j : Job). j.active) jobs
none_active [] none_armed = refl
none_active (j ∷ jobs) none_armed = elim (Bool-cases j.active) [
  | inl on ↦
      absurd (ground (arith, on, none_armed j.group_name j.id, =t_refl j.group_name, =t_refl j.id))
  | inr off ↦
      ground (arith, off, none_active jobs λ group id. ground (arith, off, none_armed group id))
]

-- One occurrence that waits for each active job makes as many of them.
waits-active :
    (rows : List RiverJob) (jobs : List Job)
    → Planned rows jobs
    → count waits rows ≡ count (λ (j : Job). j.active) jobs
waits-active [] jobs planned = none_active jobs planned
waits-active (o ∷ rows) jobs planned = elim (Bool-cases (waits o)) [
  | inl waiting ↦
      let (a, is, pending) = waiting-args o waiting in
      let own = pending_at-own o a is pending in
      let (n, j, at, armed) =
        nth-count (is_armed a.group_name a.job_id) jobs
          (λ z. absurd (ground (arith, planned a.group_name a.job_id, own, z))) in
      let rest : Planned rows (remove_at n jobs) = λ group id. ground (
        arith,
        planned group id,
        count-nth (is_armed group id) n jobs at,
        pending_at-is_armed o a j group id is pending armed,
      ) in
      ground (
        arith,
        waiting,
        armed,
        waits-active rows (remove_at n jobs) rest,
        count-nth (λ (j : Job). j.active) n jobs at,
      )
  | inr idle ↦
      let rest : Planned rows jobs =
        λ group id. ground (arith, planned group id, idle-pending_at group id o idle) in
      ground (arith, idle, waits-active rows jobs rest)
]

-- Where the invariant of the tables holds, a snapshot says that as many occurrences wait as there are active
-- jobs, and that no more of them wait for a retry.
pub stats-waits :
    (now : ℤ) (w : World) {s : Stats}
    → IsConsistent w.store.jobs w.store.river
    → (stats now w).0 ≡ ok s
    → (s.ready_queue_depth ≡ s.jobs_active) × (s.retryable ≤ s.ready_queue_depth)
unfolding stats query
stats-waits now w {s} c h = ground (
  arith,
  waits-active w.store.river w.store.jobs c.planned,
  count-le-count (λ o. is_delivery o.kind && is_retryable o.state) waits w.store.river
      (λ o r. ground arith),
)
