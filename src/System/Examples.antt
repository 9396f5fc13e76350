-- ===== src/System/Examples.antt =====
-- The theorems on the system, at a run whose delivery fails, and a test of two occurrences.
use gua.Base.{
  arith, ◌≡◌, ◌≢◌, ◌||◌, ◌++◌, true, none, some, [], ◌∷◌, List, codes, refl, ok, find, count, any,
  Text, ℕ,
}
use gua.Base.Int.{ℤ, pos}
use gua.Queue.Types.{types_code, http, split_request_url}
use gua.Queue.Invariant.{IsUnique, is_armed, pending_at}
use gua.Queue.Store.{has_id}
use gua.Queue.Requests.{active_job}
use gua.Queue.Sample.{
  river_insert, river_insert-IsInsert, no_duration, billing, invoice, world, store-IsConsistent,
  clock, config,
}
use gua.Queue.Worker.{Transport, envelope, worker_code}
use gua.System.{Event, request, fetch, advance, finish, happen, run}
use gua.System.Runs.{quiet, carries, run-occurrence}
use gua.System.Progress.{drained, drained-occurrence}
use gua.System.Deliveries.{delivery, drained-delivers}

abbrev down : Transport
down = record { post = λ target timeout env. none; on_job_trigger = λ target timeout env. none }

-- River starts the occurrence, and the delivery fails.
abbrev failing : List Event
failing = fetch 0 ∷ advance 0 down clock [] ∷ advance 0 down clock [] ∷ []

run-occurrence_example :
    let s = run river_insert no_duration config failing (quiet world) in
    IsUnique s.world.store.jobs
    × ((group id : Text)
        → count (is_armed group id) s.world.store.jobs ≢ 0
        → (any (pending_at group id) s.world.store.river || any (carries group id) s.flights)
          ≡ true)
run-occurrence_example =
    run-occurrence river_insert river_insert-IsInsert (λ rows a at h. ground arith) no_duration
      config failing world store-IsConsistent (tt, (refl, (refl, tt)))

drained-occurrence_example :
    let s = drained river_insert no_duration config down clock failing world in
    (s.flights ≡ [])
    × ((group id : Text)
        → count (is_armed group id) s.world.store.jobs ≢ 0
        → count (pending_at group id) s.world.store.river ≢ 0)
drained-occurrence_example =
    drained-occurrence river_insert no_duration config down clock river_insert-IsInsert
      (λ rows a at h. ground arith) failing world store-IsConsistent (tt, (refl, (refl, tt)))

still_there :
    find
      (has_id invoice.id)
      (drained river_insert no_duration config down clock failing world).world.store.jobs
    ≡ some invoice
unfolding worker_code run happen
still_there = refl

readable : split_request_url invoice.request_url ≡ ok (http, codes "http://x")
unfolding types_code
readable = refl

drained-delivers_example :
    let s = drained river_insert no_duration config down clock failing world in
    (n : ℕ) × (plan_time : ℤ) × (key : ℕ) × ((run river_insert no_duration config
        (delivery down clock n)
        s).world.sent
      ≡ s.world.sent ++ envelope invoice plan_time clock.sent_time key ∷ [])
drained-delivers_example =
    drained-delivers river_insert no_duration config down clock river_insert-IsInsert
      (λ rows a at h. ground arith) failing world invoice store-IsConsistent
      (tt, (refl, (refl, tt))) still_there refl readable

-- A job that is activated while a delivery of it fails ends with two occurrences that wait.
abbrev activated : List Event
activated =
    fetch 0
    ∷ request (pos 5) (active_job billing (codes "a1") (pos 9)) []
    ∷ advance 0 down clock []
    ∷ advance 0 down clock []
    ∷ advance 0 down clock []
    ∷ finish 0
    ∷ []

two_occurrences :
    count
      (pending_at billing (codes "a1"))
      (run river_insert no_duration config activated (quiet world)).world.store.river
    ≡ 2
unfolding worker_code types_code run happen
two_occurrences = refl
