-- ===== src/Queue/Counts.antt =====
-- Counts of rows under the SQL statements of Queue/Store: rows deleted, updated and inserted.
use gua.Base.{
  ◌+◌, ◌≤◌, ◌≡◌, refl, Bool, true, false, ◌&&◌, not, List, [], ◌∷◌, if◌then◌else◌, count, any,
  arith,
}
use gua.Queue.Store.{update_jobs, delete_where}
use gua.Queue.Types.{Job}

module _ {A : Type 0} (p q : A → Bool) where
  -- Deleting every row that the count counts.
  pub count-delete_all :
      (xs : List A) → ((x : A) → p x ≡ true → q x ≡ true) → count p (delete_where q xs) ≡ 0
  count-delete_all [] i = refl
  count-delete_all (x ∷ xs) i = ground (arith, count-delete_all xs i, i x)

  -- Deleting no row that the count counts.
  pub count-delete_none :
      (xs : List A)
      → ((x : A) → p x ≡ true → q x ≡ false)
      → count p (delete_where q xs) ≡ count p xs
  count-delete_none [] i = refl
  count-delete_none (x ∷ xs) i = ground (arith, count-delete_none xs i, i x)

  pub count-le-count : (xs : List A) → ((x : A) → p x ≡ true → q x ≡ true) → count p xs ≤ count q xs
  count-le-count [] i = omega arith
  count-le-count (x ∷ xs) i = ground (arith, count-le-count xs i, i x)

  pub count-delete_where :
      (xs : List A) → count p (delete_where q xs) ≡ count (λ x. p x && not (q x)) xs
  count-delete_where [] = refl
  count-delete_where (x ∷ xs) = ground (arith, count-delete_where xs)

  pub count_split :
      (xs : List A) → count p xs ≡ count (λ x. p x && q x) xs + count (λ x. p x && not (q x)) xs
  count_split [] = refl
  count_split (x ∷ xs) = ground (arith, count_split xs)

module _ {A : Type 0} (p : A → Bool) where
  -- A further condition that is the same for every row.
  pub count_and :
      (b : Bool) (xs : List A) → count (λ x. p x && b) xs ≡ (if b then count p xs else 0)
  count_and b [] = ground arith
  count_and b (x ∷ xs) = ground (arith, count_and b xs)

  pub any-count : (xs : List A) → any p xs ≡ true → 1 ≤ count p xs
  any-count [] h = ground arith
  any-count (x ∷ xs) h = ground (arith, any-count xs)

  pub count-delete-le : (q : A → Bool) (xs : List A) → count p (delete_where q xs) ≤ count p xs
  count-delete-le q [] = omega arith
  count-delete-le q (x ∷ xs) = ground (arith, count-delete-le q xs)

  pub count-any : (xs : List A) → any p xs ≡ false → count p xs ≡ 0
  count-any [] h = refl
  count-any (x ∷ xs) h = ground (arith, count-any xs)

  -- Two tests that no row passes both.
  pub count-disjoint :
      (q r : A → Bool) (xs : List A)
      → ((x : A) → p x ≡ true → q x ≡ false)
      → ((x : A) → p x ≡ true → r x ≡ true)
      → ((x : A) → q x ≡ true → r x ≡ true)
      → count p xs + count q xs ≤ count r xs
  count-disjoint q r [] d i j = omega arith
  count-disjoint q r (x ∷ xs) d i j = ground (arith, count-disjoint q r xs d i j, d x, i x, j x)

-- An update after which a row is counted by `p` exactly if it was counted by `p'`.
pub count-update_jobs :
    (p p' q : Job → Bool) (f : Job → Job) (js : List Job)
    → ((j : Job) → p (if q j then f j else j) ≡ p' j)
    → count p (update_jobs q f js) ≡ count p' js
count-update_jobs p p' q f [] h = refl
count-update_jobs p p' q f (j ∷ js) h = ground (arith, count-update_jobs p p' q f js h, h j)

pub update_jobs-none :
    (q : Job → Bool) (f : Job → Job) (js : List Job) → count q js ≡ 0 → update_jobs q f js ≡ js
update_jobs-none q f [] h = refl
update_jobs-none q f (j ∷ js) h = ground (arith, update_jobs-none q f js)
