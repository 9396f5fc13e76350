-- ===== src/Pool.antt =====
-- delayquene/grpcpool.go: the pool of gRPC connections. A connection is of any type, and what
-- grpc.NewClient makes of one call is a parameter. A critical section of the mutex is one step.
mod Examples
use gua.Base.{
  ◌≡◌, refl, Bool, true, false, Option, none, some, List, [], ◌∷◌, Text, ◌=t◌, =t→eq, =t_refl,
  if◌then◌else◌, arith,
}

-- The map of the pool, the newest entry first.
abbrev pub Pool : Type 0 → Type 0
Pool Conn = List (Text × Conn)

module _ {Conn : Type 0} where
  abbrev pub new_pool : Pool Conn
  new_pool = []

  -- The section under the read lock.
  abbrev pub lookup : Text → Pool Conn → Option Conn
  lookup target [] = none
  lookup target ((t, c) ∷ rest) =
      let found = lookup target rest in if t =t target then some c else found

  abbrev dialled : Text → Option Conn → Pool Conn → Option Conn × Pool Conn
  dialled target none p = (none, p)
  dialled target (some c) p = (some c, (target, c) ∷ p)

  abbrev or_dial : Option Conn → Text → Pool Conn → Option Conn → Option Conn × Pool Conn
  or_dial fresh target p (some c) = (some c, p)
  or_dial fresh target p none = dialled target fresh p

  -- The section under the write lock, which looks again; `fresh` is what `grpc.NewClient` returns.
  pub write_locked : Option Conn → Text → Pool Conn → Option Conn × Pool Conn
  write_locked fresh target p = or_dial fresh target p (lookup target p)

  abbrev or_write : Option Conn → Text → Pool Conn → Option Conn → Option Conn × Pool Conn
  or_write fresh target p (some c) = (some c, p)
  or_write fresh target p none = write_locked fresh target p

  -- `conn`, when no other goroutine is between its two sections.
  pub conn : Option Conn → Text → Pool Conn → Option Conn × Pool Conn
  conn fresh target p = or_write fresh target p (lookup target p)

  -- `Close`, which also closes every connection.
  pub close : Pool Conn → Pool Conn
  close p = new_pool

  -- What other goroutines do to the map before `Close`: any number of sections under the write lock.
  pub data Others : Pool Conn → Pool Conn → Type 0 where
    rest : {p : Pool Conn} → Others p p
    after :
        (fresh : Option Conn) (target : Text) {p q : Pool Conn}
        → Others (write_locked fresh target p).1 q
        → Others p q

  lookup-write_locked :
      (fresh : Option Conn) (other target : Text) (p : Pool Conn) {c : Conn}
      → lookup target p ≡ some c
      → lookup target (write_locked fresh other p).1 ≡ some c
  unfolding write_locked
  lookup-write_locked fresh other target p h = ground (arith, =t→eq other target)

  lookup-Others :
      (target : Text) {p q : Pool Conn} {c : Conn}
      → Others p q
      → lookup target p ≡ some c
      → lookup target q ≡ some c
  lookup-Others target rest h = h
  lookup-Others target (after fresh other {p} more) h =
      lookup-Others target more (lookup-write_locked fresh other target p h)

  write_locked-stored :
      (fresh : Option Conn) (target : Text) (p : Pool Conn) {c : Conn}
      → (write_locked fresh target p).0 ≡ some c
      → lookup target (write_locked fresh target p).1 ≡ some c
  unfolding write_locked
  write_locked-stored fresh target p h = ground (arith, =t_refl target)

  again_same :
      (again : Option Conn) (target : Text) (q : Pool Conn) {c : Conn}
      → lookup target q ≡ some c
      → write_locked again target q ≡ (some c, q)
  unfolding write_locked
  again_same again target q there = rw there refl

  -- Once a call has returned a connection for a target, every call for it returns the same one and
  -- stores none, whatever other goroutines store in between: a call from its start, and a call that
  -- had found none before and is about to take the write lock.
  pub conn-shared :
      (fresh again : Option Conn) (target : Text) (p q : Pool Conn) {c : Conn}
      → (write_locked fresh target p).0 ≡ some c
      → Others (write_locked fresh target p).1 q
      → (conn again target q ≡ (some c, q)) × (write_locked again target q ≡ (some c, q))
  unfolding conn
  conn-shared fresh again target p q h others =
      let there = lookup-Others target others (write_locked-stored fresh target p h) in
      (rw there refl, again_same again target q there)

  -- The first call on an empty pool.
  pub first_call : (c : Conn) (target : Text) → (write_locked (some c) target []).0 ≡ some c
  unfolding write_locked
  first_call c target = refl
