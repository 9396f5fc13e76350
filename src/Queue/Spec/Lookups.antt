-- ===== src/Queue/Spec/Lookups.antt =====
-- Looking up a definition after the SQL statements of Queue/Store.
use gua.Base.{
  ◌≡◌, ◌≢◌, ◌≤◌, refl, Bool, true, false, ◌&&◌, ◌||◌, not, Option, none, some, List, [], ◌∷◌, ◌++◌,
  Text, ◌=t◌, =t_same, =t_flip, if◌then◌else◌, find, any, count, Bool-cases, arith, inl, inr,
}
use gua.Queue.Types.{Job}
use gua.Queue.Store.{has_id, is_job, update_jobs, delete_where}
use gua.Queue.Counts.{any-count, count-any, count-le-count}
use gua.Queue.Spec.{per_job}

pub find-update_jobs :
    (id : Text) (q : Job → Bool) (f : Job → Job) (js : List Job)
    → ((j : Job) → (f j).id ≡ j.id)
    → find (has_id id) (update_jobs q f js)
      ≡ per_job (λ j. some (if q j then f j else j)) (find (has_id id) js)
find-update_jobs id q f [] keeps = refl
find-update_jobs id q f (j ∷ js) keeps = ground (arith, find-update_jobs id q f js keeps, keeps j)

find-none : (id : Text) (js : List Job) → count (has_id id) js ≡ 0 → find (has_id id) js ≡ none
find-none id [] h = refl
find-none id (j ∷ js) h = ground (arith, find-none id js)

pub find-fresh :
    (id : Text) (js : List Job) → any (has_id id) js ≡ false → find (has_id id) js ≡ none
find-fresh id js h = find-none id js (count-any (has_id id) js h)

count-deleted :
    (id : Text) (q : Job → Bool) (js : List Job)
    → count (has_id id) js ≡ 0
    → find (has_id id) (delete_where q js) ≡ none
count-deleted id q [] h = refl
count-deleted id q (j ∷ js) h = ground (arith, count-deleted id q js)

pub find-delete_where :
    (id : Text) (q : Job → Bool) (js : List Job)
    → count (has_id id) js ≤ 1
    → find (has_id id) (delete_where q js)
      ≡ per_job (λ j. if q j then none else some j) (find (has_id id) js)
find-delete_where id q [] one = refl
find-delete_where id q (j ∷ js) one =
    ground (arith, find-delete_where id q js, count-deleted id q js)

pub find-append :
    (id : Text) (job : Job) (js : List Job)
    → any (has_id job.id) js ≡ false
    → find (has_id id) (js ++ job ∷ []) ≡ (if job.id =t id then some job else find (has_id id) js)
find-append id job [] fresh = ground arith
find-append id job (j ∷ js) fresh = ground (
  arith,
  find-append id job js,
  =t_same job.id id j.id,
  =t_same j.id id job.id,
  =t_flip job.id id,
)

pub known-count :
    (group id : Text) (js : List Job)
    → count (has_id id) js ≤ 1
    → count (is_job group id) js ≢ 0
    → (j : Job) × (find (has_id id) js ≡ some j) × ((j.group_name =t group) ≡ true)
known-count group id [] one there = absurd (there refl)
known-count group id (j ∷ js) one there = elim (Bool-cases (j.id =t id)) [
  | inl same ↦ (
    j,
    ground (arith, same),
    ground (arith, same, count-le-count (is_job group id) (has_id id) js (λ k h. ground arith)),
  )
  | inr other ↦
      let (k, found, mine) =
        known-count group id js (ground (arith, other)) (λ h. there (ground (arith, other, h))) in
      (k, ground (arith, other, found), mine)
]

pub any-delete :
    (group g : Text) (gs : List Text)
    → any (λ h. h =t g) (delete_where (λ h. h =t group) gs)
      ≡ (any (λ h. h =t g) gs && not (g =t group))
any-delete group g [] = refl
any-delete group g (h ∷ gs) = ground (arith, any-delete group g gs, =t_same h g group)

pub any-added :
    (group g : Text) (gs : List Text)
    → any (λ h. h =t g) (gs ++ group ∷ []) ≡ (any (λ h. h =t g) gs || group =t g)
any-added group g [] = ground arith
any-added group g (h ∷ gs) = ground (arith, any-added group g gs)

pub any-known :
    (g : Text) (gs : List Text) → count (λ h. h =t g) gs ≢ 0 → any (λ h. h =t g) gs ≡ true
any-known g gs there = elim (Bool-cases (any (λ h. h =t g) gs)) [
  | inl held ↦ held
  | inr missing ↦ absurd (there (count-any (λ h. h =t g) gs missing))
]

pub per_job-same : (o : Option Job) → o ≡ per_job some o
per_job-same none = refl
per_job-same (some j) = refl

-- And a definition that is found is there.
pub count-found :
    (group id : Text) (j : Job) (js : List Job)
    → find (has_id id) js ≡ some j
    → (j.group_name =t group) ≡ true
    → count (is_job group id) js ≢ 0
count-found group id j [] found mine = absurd cc
count-found group id j (k ∷ js) found mine = ground (arith, count-found group id j js)

pub any-missing :
    (id : Text) (js : List Job) → find (has_id id) js ≡ none → any (has_id id) js ≡ false
any-missing id [] h = refl
any-missing id (j ∷ js) h = ground (arith, any-missing id js)

pub count-any_group :
    (g : Text) (gs : List Text) → any (λ h. h =t g) gs ≡ true → count (λ h. h =t g) gs ≢ 0
count-any_group g gs held none_held = ground (arith, held, none_held, any-count (λ h. h =t g) gs)
