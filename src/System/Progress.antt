-- ===== src/System/Progress.antt =====
-- How the runs of the worker of delayquene/riverquene.go come to their ends.
use gua.Base.{
  ℕ, ◌-◌, ◌≤◌, ◌≡◌, ◌≢◌, refl, sym, ap, subst, Option, List, [], ◌∷◌, Text, Result, ok, err, count,
  Bool-cases, arith, inl, inr,
}
use gua.Base.Int.{ℤ}
use gua.Queue.Types.{Error, invalid, not_found, duplicate, storage, Job}
use gua.Queue.Config.{RiverConfig}
use gua.Queue.Store.{RiverJob, JobArgs, Insert, IsInsert}
use gua.Queue.Monad.{World}
use gua.Queue.Invariant.{IsConsistent, pending_at, is_armed}
use gua.Queue.Worker.{Transport, Clock, WorkError, load_job}
use gua.Queue.Worker.Ends.{Inserts}
use gua.System.{
  Phase, fetched, loaded, delivered, returned, after_load, Flight, System, Event, advance, finish,
  with_faults, step_phase, finished, happen, run,
}
use gua.System.Runs.{carries, IsSafe, AllCalm, run-IsSafe, quiet, quiet-IsSafe}

-- The steps that a run has left before it returns.
abbrev pub steps_left : Phase → ℕ
steps_left fetched = 3
steps_left (loaded def) = 2
steps_left (delivered def outcome) = 1
steps_left (returned r) = 0

after_load-steps : (r : Result Error Job) → steps_left (after_load r) ≤ 2
after_load-steps (ok def) = elim (Bool-cases def.active) [
  | inl on ↦ simp on (omega arith)
  | inr off ↦ simp off (omega arith)
]
after_load-steps (err invalid) = omega arith
after_load-steps (err not_found) = omega arith
after_load-steps (err duplicate) = omega arith
after_load-steps (err storage) = omega arith

steps_left-le : (p : Phase) → steps_left p ≤ 3
steps_left-le fetched = omega arith
steps_left-le (loaded def) = omega arith
steps_left-le (delivered def outcome) = omega arith
steps_left-le (returned r) = omega arith

at_rest : (p : Phase) → steps_left p ≡ 0 → (r : Result WorkError Unit) × (p ≡ returned r)
at_rest fetched h = absurd (omega (arith, h))
at_rest (loaded def) h = absurd (omega (arith, h))
at_rest (delivered def outcome) h = absurd (omega (arith, h))
at_rest (returned r) h = (r, refl)

-- Four events that end each run: three steps, with a database that serves them, and River.
abbrev pub drain : Transport → Clock → List Flight → List Event
drain t clock [] = []
drain t clock (f ∷ fs) =
    advance 0 t clock [] ∷ advance 0 t clock [] ∷ advance 0 t clock [] ∷ finish 0 ∷ drain t clock fs

module _ (insert : Insert) (parse_duration : Text → Option ℤ) (cfg : RiverConfig) (t : Transport)
    (clock : Clock) where
  step-steps :
      (row : RiverJob) (a : JobArgs) (p : Phase) (w : World)
      → steps_left (step_phase insert parse_duration cfg t clock row a p w).0 ≤ steps_left p - 1
  step-steps row a fetched w = after_load-steps (load_job a.job_id w).0
  step-steps row a (loaded def) w = omega arith
  step-steps row a (delivered def outcome) w = omega arith
  step-steps row a (returned r) w = omega arith

  finished-flights :
      (f : Flight) (fs : List Flight) (p : Phase) (w : World)
      → steps_left p ≡ 0
      → (finished 0 f p (record { world = w; flights = f ∷ fs })).flights ≡ fs
  finished-flights f fs p w h = let (r, is) = at_rest p h in rw is refl

  drain-flights :
      (fs : List Flight) (w : World)
      → (run insert parse_duration cfg
          (drain t clock fs)
          (record { world = w; flights = fs })).flights
        ≡ []
  unfolding run happen
  drain-flights [] w = refl
  drain-flights (f ∷ fs) w =
      let (p1, w1) =
        step_phase insert parse_duration cfg t clock f.row f.args f.phase (with_faults [] w) in
      let (p2, w2) =
        step_phase insert parse_duration cfg t clock f.row f.args p1 (with_faults [] w1) in
      let (p3, w3) =
        step_phase insert parse_duration cfg t clock f.row f.args p2 (with_faults [] w2) in
      let s =
        finished 0 (record f { phase = p3 }) p3
          (record { world = w3; flights = record f { phase = p3 } ∷ fs }) in
      let left =
        finished-flights (record f { phase = p3 }) fs p3 w3
          (omega (
            arith,
            steps_left-le f.phase,
            step-steps f.row f.args f.phase (with_faults [] w),
            step-steps f.row f.args p1 (with_faults [] w1),
            step-steps f.row f.args p2 (with_faults [] w2),
          )) in
      subst
        (λ gs.
          (run insert parse_duration cfg (drain t clock fs)
            (record { world = s.world; flights = gs })).flights
          ≡ [])
        (sym left) (drain-flights fs s.world)

  drain-AllCalm :
      (fs : List Flight) (s : System) → AllCalm insert parse_duration cfg (drain t clock fs) s
  drain-AllCalm [] s = tt
  drain-AllCalm (f ∷ fs) s = (refl, (refl, (refl, (tt, drain-AllCalm fs _))))

  -- The system after some events and after the runs that are then under way have ended.
  abbrev pub drained : List Event → World → System
  drained es w =
      let s = run insert parse_duration cfg es (quiet w) in
      run insert parse_duration cfg (drain t clock s.flights) s

  module _ (law : IsInsert insert) (inserts : Inserts insert) (es : List Event) (w : World)
      (c : IsConsistent w.store.jobs w.store.river)
      (calm : AllCalm insert parse_duration cfg es (quiet w)) where
    pub drained-IsSafe : IsSafe (drained es w) × ((drained es w).flights ≡ [])
    drained-IsSafe =
        let s = run insert parse_duration cfg es (quiet w) in
        (
          run-IsSafe insert law inserts parse_duration cfg (drain t clock s.flights) s
              (drain-AllCalm s.flights s)
              (run-IsSafe insert law inserts parse_duration cfg es (quiet w) calm
                (quiet-IsSafe w c)),
          drain-flights s.flights s.world,
        )

    -- If River inserts as it documents and does not refuse, the database serves the steps of runs, and
    -- no process dies during a last attempt: after any events, four events for each run that is under
    -- way end all runs, and then each active job has an occurrence that waits.
    pub drained-occurrence :
        let s = drained es w in
        (s.flights ≡ [])
        × ((group id : Text)
            → count (is_armed group id) s.world.store.jobs ≢ 0
            → count (pending_at group id) s.world.store.river ≢ 0)
    drained-occurrence =
        let (safe, ended) = drained-IsSafe in
        (
          ended,
          λ group id armed none_waits. armed (
              omega (arith, safe.served group id, ap (count (carries group id)) ended, none_waits)),
        )
