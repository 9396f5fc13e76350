-- ===== src/Server/Startup/Balance.antt =====
-- The pool and the client of River over NewRiver and Close of delayquene/riverquene.go.
use gua.Base.{
  ℕ, ◌+◌, ◌≡◌, refl, Bool, true, false, ◌&&◌, not, List, [], ◌∷◌, if◌then◌else◌, Result, ok, err,
  count, count-append, arith,
}
use gua.Queue.Config.{RiverConfig, normalize}
use gua.Server.Startup.{
  Statement, Call, open_pool, new_migrator, run_river_migrations, exec, new_river_client,
  start_client, close_pool, Entry, Process, Failure, Step, try, tried, noted, continue,
  closed_on_error, built, ◌>>◌, RiverSetup, or_close, exec_all, statements, migrate, connect,
  new_river, river_setup,
}

-- How often a kind of call was made and did not fail.
abbrev pub total : (Call → Bool) → Process → ℕ
total f p = count (λ e. not e.failed && f e.call) p.log

abbrev pub is_ok : {A : Type 0} → Result Failure A → Bool
is_ok (ok a) = true
is_ok (err e) = false

abbrev pub opens : Call → Bool
opens open_pool = true
opens _ = false

abbrev pub closes : Call → Bool
closes close_pool = true
closes _ = false

abbrev pub starts : Call → Bool
starts start_client = true
starts _ = false

module _ (f : Call → Bool) where
  pub total-noted :
      (c : Call) (failed : Bool) (rest : List Bool) (p : Process)
      → total f (noted c failed rest p) ≡ total f p + (if not failed && f c then 1 else 0)
  total-noted c failed rest p = ground (
    arith,
    count-append (λ (e : Entry). not e.failed && f e.call) p.log
        (record { call = c; failed = failed } ∷ []),
  )

  pub total-try :
      (c : Call) (p : Process)
      → total f (try c p).1 ≡ total f p + (if is_ok (try c p).0 && f c then 1 else 0)
  unfolding try
  total-try c p = by_faults p.faults
    where
      by_faults :
          (fs : List Bool)
          → total f (tried c fs p).1 ≡ total f p + (if is_ok (tried c fs p).0 && f c then 1 else 0)
      by_faults [] = total-noted c false [] p
      by_faults (true ∷ rest) = total-noted c true rest p
      by_faults (false ∷ rest) = total-noted c false rest p

  -- Calls that are not counted.
  pub total-other : (c : Call) (p : Process) → f c ≡ false → total f (try c p).1 ≡ total f p
  total-other c p other = ground (arith, total-try c p, other)

  exec_all-total :
      (ss : List Statement) (p : Process)
      → ((s : Statement) → f (exec s) ≡ false)
      → total f (exec_all ss p).1 ≡ total f p
  unfolding exec_all
  exec_all-total [] p other = refl
  exec_all-total (s ∷ ss) p other =
      ground (arith, total-other (exec s) p (other s), exec_all-total ss (try (exec s) p).1 other)

  pub migrate-total :
      (p : Process)
      → f new_migrator ≡ false
      → f run_river_migrations ≡ false
      → ((s : Statement) → f (exec s) ≡ false)
      → total f (migrate p).1 ≡ total f p
  unfolding migrate
  migrate-total p a b other =
      let p₁ = (try new_migrator p).1 in
      let p₂ = (try run_river_migrations p₁).1 in
      ground (
        arith,
        total-other new_migrator p a,
        total-other run_river_migrations p₁ b,
        exec_all-total statements p₂ other,
      )

-- A part of `NewRiver` behind the opening of the pool, from `p` to `x`: on an error it has closed the pool,
-- and otherwise it has started River's client `n` times.
record Part (n : ℕ) (p : Process) (x : Result Failure Unit × Process) : Type 0 where
  held :
      total opens x.1 + total closes p + (if is_ok x.0 then 0 else 1)
      ≡ total opens p + total closes x.1
  started : total starts x.1 ≡ total starts p + (if is_ok x.0 then n else 0)

then-Part :
    {n : ℕ} {p : Process} (x : Result Failure Unit × Process) (k : Step Unit)
    → Part 0 p x
    → ((q : Process) → Part n q (k q))
    → Part n p (continue (λ _. k) x)
then-Part (ok tt, q) k first later = record {
  held = omega (arith, first.held, (later q).held);
  started = omega (arith, first.started, (later q).started);
}
then-Part (err e, q) k first later = record { held = first.held; started = first.started }

closed-Part :
    {n : ℕ} {p : Process} (x : Result Failure Unit × Process)
    → total opens x.1 ≡ total opens p
    → total closes x.1 ≡ total closes p
    → total starts x.1 ≡ total starts p + (if is_ok x.0 then n else 0)
    → Part n p (closed_on_error x)
closed-Part (ok tt, q) o c s = record { held = omega (arith, o, c); started = s }
closed-Part {n} {p} (err e, q) o c s = record {
  held = omega (
    arith,
    o,
    c,
    total-noted opens close_pool false q.faults q,
    total-noted closes close_pool false q.faults q,
  );
  started = omega (arith, s, total-noted starts close_pool false q.faults q);
}

migrate-Part : (p : Process) → Part 0 p (or_close migrate p)
migrate-Part p =
    closed-Part (migrate p) (migrate-total opens p refl refl (λ s. refl))
      (migrate-total closes p refl refl (λ s. refl))
      (ground (arith, migrate-total starts p refl refl (λ s. refl)))

client-Part : (r : RiverSetup) (p : Process) → Part 0 p (or_close (try (new_river_client r)) p)
client-Part r p =
    closed-Part (try (new_river_client r) p) (total-other opens (new_river_client r) p refl)
      (total-other closes (new_river_client r) p refl)
      (ground (arith, total-other starts (new_river_client r) p refl))

start-Part : (p : Process) → Part 1 p (or_close (try start_client) p)
start-Part p =
    closed-Part (try start_client p) (total-other opens start_client p refl)
      (total-other closes start_client p refl) (ground (arith, total-try starts start_client p))

behind_pool : RiverConfig → Step Unit
behind_pool c =
    or_close migrate
    >> (or_close (try (new_river_client (river_setup c))) >> or_close (try start_client))

behind_pool-Part : (c : RiverConfig) (p : Process) → Part 1 p (behind_pool c p)
unfolding behind_pool
behind_pool-Part c p = then-Part (or_close migrate p) _ (migrate-Part p) λ q.
    then-Part (or_close (try (new_river_client (river_setup c))) q) _
      (client-Part (river_setup c) q) start-Part

abbrev Balanced : {A : Type 0} → Process → Result Failure A × Process → Type 0
Balanced p x =
    (total opens x.1 + total closes p
      ≡ total opens p + total closes x.1 + (if is_ok x.0 then 1 else 0))
    × (total starts x.1 ≡ total starts p + (if is_ok x.0 then 1 else 0))

connect-Balanced : (c : RiverConfig) (p : Process) → Balanced p (connect c p)
unfolding connect migrate behind_pool
connect-Balanced c p =
    opened (try open_pool p) (total-try opens open_pool p) (total-try closes open_pool p)
      (total-try starts open_pool p)
  where
    opened :
        (x : Result Failure Unit × Process)
        → total opens x.1 ≡ total opens p + (if is_ok x.0 && true then 1 else 0)
        → total closes x.1 ≡ total closes p + (if is_ok x.0 && false then 1 else 0)
        → total starts x.1 ≡ total starts p + (if is_ok x.0 && false then 1 else 0)
        → Balanced p (continue (λ _. behind_pool c) x)
    opened (ok tt, q) o k s =
        let part = behind_pool-Part c q in (ground (arith, part.held), ground (arith, part.started))
    opened (err e, q) o k s = (omega (arith, o, k), omega (arith, s))

built-Balanced :
    (c : RiverConfig) (p : Process) (x : Result Failure Unit × Process)
    → Balanced p x
    → Balanced p (built c x)
built-Balanced c p (ok tt, q) b = b
built-Balanced c p (err e, q) b = b

-- `NewRiver` either returns a queue, and has then opened one pool that it did not close and started
-- River's client once; or it returns an error, and has closed each pool that it opened and left no client
-- running.
pub new_river-balanced :
    (c : RiverConfig) (p : Process)
    → let (r, p') = new_river c p in
      (total opens p' + total closes p
        ≡ total opens p + total closes p' + (if is_ok r then 1 else 0))
      × (total starts p' ≡ total starts p + (if is_ok r then 1 else 0))
unfolding new_river
new_river-balanced c p =
    built-Balanced (normalize c) p (connect (normalize c) p) (connect-Balanced (normalize c) p)
