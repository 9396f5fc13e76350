-- ===== src/System/Runs.antt =====
-- Sequences of events: requests of delayquene/riverquene.go and steps of its worker that interleave.
use gua.Base.{
  ℕ, ◌+◌, ◌≤◌, ◌≡◌, ◌≢◌, refl, ◌∙◌, ap, Bool, true, false, ◌&&◌, ◌||◌, not, Option, none, some,
  List, [], ◌∷◌, Text, count, any, ltb, nth, remove_at, count-nth, count-set_at, count-append,
  Bool-cases, arith, inl, inr,
}
use gua.Base.Int.{ℤ}
use gua.Queue.Types.{Job}
use gua.Queue.Config.{RiverConfig}
use gua.Queue.Store.{RiverJob, Kind, gua_delivery, gua_history_prune, Insert, IsInsert, is_pending}
use gua.Queue.Monad.{World}
use gua.Queue.Counts.{count-any}
use gua.Queue.Invariant.{IsConsistent, IsUnique, pending_at, is_armed}
use gua.Queue.Invariant.Preserved.{pending_at-new}
use gua.Queue.Worker.{Transport, Clock}
use gua.Queue.Worker.Ends.{is_over, Inserts}
use gua.System.{
  Phase, fetched, loaded, delivered, returned, Flight, System, Event, request, fetch, advance,
  finish, rescue, with_faults, retried, landed, step_phase, start, fetched_row, advanced, finished,
  finished_run, rescued, happen, run,
}
use gua.System.Served.{IsServed, handle-IsServed}
use gua.System.Alive.{is_for, is_alive}
use gua.System.Flights.{step_phase-Tracked}

-- Whether a run counts for the job `id` in `group`.
abbrev pub carries : Text → Text → Flight → Bool
carries group id f = is_alive f.row f.args f.phase && is_for group id f.args

abbrev pub IsSafe : System → Type 0
IsSafe s =
    IsServed s.world.store.jobs s.world.store.river (λ group id. count (carries group id) s.flights)

-- The database serves the steps of runs, and no process dies during a last attempt. Requests may fail.
abbrev pub IsCalm : Event → System → Type 0
IsCalm (advance n t clock faults) s = faults ≡ []
IsCalm (rescue n) s =
    (f : Flight) → nth n s.flights ≡ some f → ltb f.row.attempt f.row.max_attempts ≡ true
IsCalm _ s = Unit

-- No run is under way.
abbrev pub quiet : World → System
quiet w = record { world = w; flights = [] }

pub quiet-IsSafe : (w : World) → IsConsistent w.store.jobs w.store.river → IsSafe (quiet w)
quiet-IsSafe w c = record {
  unique = c.unique;
  served = λ group id. omega (arith, c.planned group id);
}

module _ (insert : Insert) (parse_duration : Text → Option ℤ) (cfg : RiverConfig) where
  -- Every event of a sequence is calm where it happens.
  abbrev pub AllCalm : List Event → System → Type 0
  AllCalm [] s = Unit
  AllCalm (e ∷ es) s = IsCalm e s × AllCalm es (happen insert parse_duration cfg e s)

module _ {jobs : List Job} {river : List RiverJob} {k : Text → Text → ℕ}
    (s : IsServed jobs river k) where
  -- Occurrences and runs that are counted otherwise.
  recounted-IsServed :
      (river' : List RiverJob) (k' : Text → Text → ℕ)
      → ((group id : Text)
          → count (pending_at group id) river + k group id
            ≤ count (pending_at group id) river' + k' group id)
      → IsServed jobs river' k'
  recounted-IsServed river' k' more = record {
    unique = s.unique;
    served = λ group id. omega (arith, s.served group id, more group id);
  }

module _ (insert : Insert) (law : IsInsert insert) (inserts : Inserts insert)
    (parse_duration : Text → Option ℤ) (cfg : RiverConfig) where
  fetch-IsSafe :
      (n : ℕ) (s : System) → IsSafe s → IsSafe (happen insert parse_duration cfg (fetch n) s)
  unfolding happen
  fetch-IsSafe n s c = by_row (nth n s.world.store.river) refl
    where
      by_kind :
          (row : RiverJob) (kind : Kind)
          → nth n s.world.store.river ≡ some row
          → row.kind ≡ kind
          → IsSafe (start n row kind s)
      by_kind row gua_history_prune found is = c
      by_kind row (gua_delivery a) found is = elim (Bool-cases (is_pending row.state)) [
        | inl waits ↦ simp waits (
            recounted-IsServed c _ _ (λ group id. ground (
              arith,
              count-nth (pending_at group id) n s.world.store.river found,
              pending_at-new group id row a is waits,
            )))
        | inr busy ↦ simp busy c
      ]

      by_row : (o : Option RiverJob) → nth n s.world.store.river ≡ o → IsSafe (fetched_row n o s)
      by_row none found = c
      by_row (some row) found = by_kind row row.kind found refl

  advance-IsSafe :
      (n : ℕ) (t : Transport) (clock : Clock) (s : System)
      → IsSafe s
      → IsSafe (happen insert parse_duration cfg (advance n t clock []) s)
  unfolding happen
  advance-IsSafe n t clock s c = by_flight (nth n s.flights) refl
    where
      by_flight :
          (o : Option Flight)
          → nth n s.flights ≡ o
          → IsSafe (advanced insert parse_duration cfg n t clock [] o s)
      by_flight none found = c
      by_flight (some f) found =
          let rest = λ (group id : Text). count (carries group id) (remove_at n s.flights) in
          let w = with_faults [] s.world in
          let (p, w') = step_phase insert parse_duration cfg t clock f.row f.args f.phase w in
          recounted-IsServed
            (step_phase-Tracked insert law inserts parse_duration cfg t clock f.row f.args rest
              f.phase w refl
              (recounted-IsServed c _ _
                λ group id. omega (arith, count-nth (carries group id) n s.flights found)))
            _ _
            (λ group id.
              omega
                (arith, count-set_at (carries group id) n (record f { phase = p }) s.flights found))

  -- The run leaves; its row waits again, unless River is done with it, and then the run counts no more.
  landed-IsSafe :
      (n : ℕ) (f : Flight) (over : Bool) (s : System)
      → IsSafe s
      → nth n s.flights ≡ some f
      → (over ≡ true → is_alive f.row f.args f.phase ≡ false)
      → IsSafe (record { world = landed over f s.world; flights = remove_at n s.flights })
  landed-IsSafe n f true s c found done =
      recounted-IsServed c _ _
        (λ group id. ground (arith, done refl, count-nth (carries group id) n s.flights found))
  landed-IsSafe n f false s c found done = recounted-IsServed c _ _ (λ group id. ground (
    arith,
    count-nth (carries group id) n s.flights found,
    count-append (pending_at group id) s.world.store.river (retried f ∷ []),
  ))

  finish-IsSafe :
      (n : ℕ) (s : System) → IsSafe s → IsSafe (happen insert parse_duration cfg (finish n) s)
  unfolding happen
  finish-IsSafe n s c = by_flight (nth n s.flights) refl
    where
      by_phase :
          (f : Flight) (p : Phase)
          → nth n s.flights ≡ some f
          → f.phase ≡ p
          → IsSafe (finished n f p s)
      by_phase f fetched found is = c
      by_phase f (loaded def) found is = c
      by_phase f (delivered def outcome) found is = c
      by_phase f (returned r) found is =
          landed-IsSafe n f (is_over f.row r) s c found
            λ over. ap (is_alive f.row f.args) is ∙ ap not over

      by_flight : (o : Option Flight) → nth n s.flights ≡ o → IsSafe (finished_run n o s)
      by_flight none found = c
      by_flight (some f) found = by_phase f f.phase found refl

  rescue-IsSafe :
      (n : ℕ) (s : System)
      → IsCalm (rescue n) s
      → IsSafe s
      → IsSafe (happen insert parse_duration cfg (rescue n) s)
  unfolding happen
  rescue-IsSafe n s calm c = by_flight (nth n s.flights) refl
    where
      by_flight : (o : Option Flight) → nth n s.flights ≡ o → IsSafe (rescued n o s)
      by_flight none found = c
      by_flight (some f) found =
          landed-IsSafe n f (not (ltb f.row.attempt f.row.max_attempts)) s c found
            λ over. absurd (ground (arith, calm f found))

  happen-IsSafe :
      (e : Event) (s : System)
      → IsCalm e s
      → IsSafe s
      → IsSafe (happen insert parse_duration cfg e s)
  unfolding happen
  happen-IsSafe (request now q faults) s calm c =
      handle-IsServed insert law parse_duration now q (with_faults faults s.world) c
  happen-IsSafe (fetch n) s calm c = fetch-IsSafe n s c
  happen-IsSafe (advance n t clock []) s calm c = advance-IsSafe n t clock s c
  happen-IsSafe (advance n t clock (b ∷ faults)) s calm c = cc
  happen-IsSafe (finish n) s calm c = finish-IsSafe n s c
  happen-IsSafe (rescue n) s calm c = rescue-IsSafe n s calm c

  pub run-IsSafe :
      (es : List Event) (s : System)
      → AllCalm insert parse_duration cfg es s
      → IsSafe s
      → IsSafe (run insert parse_duration cfg es s)
  unfolding run
  run-IsSafe [] s calm c = c
  run-IsSafe (e ∷ es) s (now, later) c = run-IsSafe es _ later (happen-IsSafe e s now c)

  -- If River inserts as it documents and does not refuse, the database serves the steps of runs, and no
  -- process dies during a last attempt: whatever requests, runs, retries and deaths follow one
  -- another from consistent tables, an id has one job at most, and each active job has an
  -- occurrence that waits or a run that carries one.
  pub run-occurrence :
      (es : List Event) (w : World)
      → IsConsistent w.store.jobs w.store.river
      → AllCalm insert parse_duration cfg es (quiet w)
      → let s = run insert parse_duration cfg es (quiet w) in
        IsUnique s.world.store.jobs
        × ((group id : Text)
            → count (is_armed group id) s.world.store.jobs ≢ 0
            → (any (pending_at group id) s.world.store.river || any (carries group id) s.flights)
              ≡ true)
  run-occurrence es w c calm =
      let s = run insert parse_duration cfg es (quiet w) in
      let safe = run-IsSafe es (quiet w) calm (quiet-IsSafe w c) in
      (
        safe.unique,
        λ group id armed. ground (
          arith,
          safe.served group id,
          count-any (pending_at group id) s.world.store.river,
          count-any (carries group id) s.flights,
        ),
      )
