-- ===== src/Pool/Examples.antt =====
-- The theorem on the pool, where another goroutine connects to another target in between.
use gua.Base.{ℕ, ◌≡◌, Option, some, [], Text, codes}
use gua.Pool.{write_locked, conn, rest, after, conn-shared, first_call}

abbrev target : Text
target = codes "a:1"

abbrev c7 : Option ℕ
c7 = some 7

abbrev c8 : Option ℕ
c8 = some 8

abbrev c9 : Option ℕ
c9 = some 9

conn-shared_example :
    let q = (write_locked c8 (codes "b:2") (write_locked c7 target []).1).1 in
    (conn c9 target q ≡ (c7, q)) × (write_locked c9 target q ≡ (c7, q))
conn-shared_example =
    conn-shared c7 c9 target [] (write_locked c8 (codes "b:2") (write_locked c7 target []).1).1
      (first_call 7 target) (after c8 (codes "b:2") rest)
