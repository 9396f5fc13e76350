-- ===== src/Queue/Monad.antt =====
-- Calls of the database as actions: each may fail (`faults` says which), a transaction that does not
-- commit is rolled back, and deliveries are recorded.
use gua.Base.{
  Bool, true, false, ◌≡◌, refl, List, [], ◌∷◌, Result, ok, err, if◌then◌else◌, arith, ◌⊎◌, inl, inr,
}
use gua.Queue.Types.{Error, storage, TriggerEnvelope}
use gua.Queue.Store.{Store}

-- `faults` holds true for each later call that fails; the calls behind its end succeed.
pub record World : Type 0 where
  pub store : Store
  pub faults : List Bool
  pub sent : List TriggerEnvelope

abbrev pub Db : Type 0 → Type 0
Db A = World → Result Error A × World

-- Whether the next call fails.
abbrev pop : List Bool → Bool × List Bool
pop [] = (false, [])
pop (f ∷ fs) = (f, fs)

module _ {A B : Type 0} where
  abbrev continue : Result Error A → (A → Db B) → Db B
  continue (ok a) f w = f a w
  continue (err e) f w = (err e, w)

  infixl 5 ◌>>=◌ ◌>>◌
  abbrev pub ◌>>=◌ : Db A → (A → Db B) → Db B
  ◌>>=◌ m f w = let (r, w') = m w in continue r f w'

  abbrev pub ◌>>◌ : Db A → Db B → Db B
  m >> k = m >>= λ _. k

module _ {A : Type 0} where
  abbrev pub pure : A → Db A
  pure a w = (ok a, w)

  abbrev pub raise : Error → Db A
  raise e w = (err e, w)

  -- A check that touches no state.
  abbrev pub lift : Result Error A → Db A
  lift r w = (r, w)

  abbrev run_query : Result Error (A × Store) → World → Result Error A × World
  run_query (ok (a, s)) w = (ok a, record w { store = s })
  run_query (err e) w = (err e, w)

  -- One statement, which answers from the tables and may change them, or fails and changes nothing.
  unfoldable pub query : (Store → Result Error (A × Store)) → Db A
  query q w =
      let (fails, rest) = pop w.faults in
      let w' = record w { faults = rest } in
      if fails then (err storage, w') else run_query (q w.store) w'

  abbrev commit : Result Error A → Store → World → Result Error A × World
  commit (err e) before w = (err e, record w { store = before })
  commit (ok a) before w =
      let (fails, rest) = pop w.faults in
      if fails
      then (err storage, record w { store = before; faults = rest })
      else (ok a, record w { faults = rest })

  -- `Begin`, the statements, `Commit`; the deferred `Rollback` undoes all of it after an error.
  unfoldable pub transaction : Db A → Db A
  transaction m w =
      let (fails, rest) = pop w.faults in
      let begun = record w { faults = rest } in
      let (r, w') = m begun in if fails then (err storage, begun) else commit r w.store w'

  -- An action whose error is logged and no more.
  abbrev pub ignore : Db A → World → World
  ignore m w = (m w).1

  -- A failed statement, or a failed transaction, leaves the tables as they were.
  pub query-err_unchanged :
      (q : Store → Result Error (A × Store)) (w : World) {e : Error}
      → (query q w).0 ≡ err e
      → (query q w).1.store ≡ w.store
  unfolding query
  query-err_unchanged q w h = ground arith

  pub transaction-err_unchanged :
      (m : Db A) (w : World) {e : Error}
      → (transaction m w).0 ≡ err e
      → (transaction m w).1.store ≡ w.store
  unfolding transaction
  transaction-err_unchanged m w h = ground arith

abbrev commit_if : Result Error Bool → Store → World → Result Error Unit × World
commit_if (err e) before w = (err e, record w { store = before })
commit_if (ok false) before w = (ok tt, record w { store = before })
commit_if (ok true) before w = commit (ok tt) before w

-- A transaction that returns before `Commit`, without an error, unless the statements say true.
unfoldable pub transaction_if : Db Bool → Db Unit
transaction_if m w =
    let (fails, rest) = pop w.faults in
    let begun = record w { faults = rest } in
    let (r, w') = m begun in if fails then (err storage, begun) else commit_if r w.store w'

-- What follows a check runs only when the check has a value.
pub lift-ok :
    {A B : Type 0} (r : Result Error A) (f : A → Db B) (w : World) {b : B}
    → ((lift r >>= f) w).0 ≡ ok b
    → (a : A) × (r ≡ ok a)
lift-ok (ok a) f w h = (a, refl)
lift-ok (err e) f w h = ground arith

pub lift-err_unchanged :
    {A B : Type 0} (r : Result Error A) (f : A → Db B) (w : World) {e : Error}
    → ((a : A) → (f a w).0 ≡ err e → (f a w).1.store ≡ w.store)
    → ((lift r >>= f) w).0 ≡ err e
    → ((lift r >>= f) w).1.store ≡ w.store
lift-err_unchanged (ok a) f w u h = u a h
lift-err_unchanged (err e) f w u h = refl

-- An action whose value is left out.
abbrev pub discard : {A : Type 0} → Db A → Db Unit
discard m = m >>= λ _. pure tt

pub discard-ok :
    {A : Type 0} (m : Db A) (w : World)
    → (discard m w).0 ≡ ok tt
    → (a : A) × ((m w).0 ≡ ok a) × ((discard m w).1 ≡ (m w).1)
discard-ok m w h = after (m w) h
  where
    after :
        {A : Type 0} (x : Result Error A × World)
        → (continue x.0 (λ _. pure tt) x.1).0 ≡ ok tt
        → (a : A) × (x.0 ≡ ok a) × ((continue x.0 (λ _. pure tt) x.1).1 ≡ x.1)
    after (ok a, w) h = (a, refl, refl)
    after (err e, w) h = absurd (ground arith)

pub discard-err :
    {A : Type 0} (m : Db A) (w : World) {e : Error}
    → (discard m w).0 ≡ err e
    → ((m w).0 ≡ err e) × ((discard m w).1 ≡ (m w).1)
discard-err m w h = after (m w) h
  where
    after :
        {A : Type 0} (x : Result Error A × World) {e : Error}
        → (continue x.0 (λ _. pure tt) x.1).0 ≡ err e
        → (x.0 ≡ err e) × ((continue x.0 (λ _. pure tt) x.1).1 ≡ x.1)
    after (ok a, w) h = absurd (ground arith)
    after (err e, w) h = (ground arith, refl)

pub transaction_if-err_unchanged :
    (m : Db Bool) (w : World) {e : Error}
    → (transaction_if m w).0 ≡ err e
    → (transaction_if m w).1.store ≡ w.store
unfolding transaction_if
transaction_if-err_unchanged m w h = ground arith

abbrev pub as_unit : {A : Type 0} → Result Error A → Result Error Unit
as_unit (ok a) = ok tt
as_unit (err e) = err e

pub discard-world :
    {A : Type 0} (m : Db A) (w : World)
    → ((discard m w).1 ≡ (m w).1) × ((discard m w).0 ≡ as_unit (m w).0)
discard-world m w = after (m w)
  where
    after :
        {A : Type 0} (x : Result Error A × World)
        → ((continue x.0 (λ _. pure tt) x.1).1 ≡ x.1)
          × ((continue x.0 (λ _. pure tt) x.1).0 ≡ as_unit x.0)
    after (ok a, w) = (refl, refl)
    after (err e, w) = (refl, refl)

pub ok_or_err : (x : Result Error Unit) → (x ≡ ok tt) ⊎ ((e : Error) × (x ≡ err e))
ok_or_err (ok tt) = inl refl
ok_or_err (err e) = inr (e, refl)
