-- ===== src/Queue/Reads/History.antt =====
-- What History returns.
use gua.Base.{
  ℕ, zero, suc, ◌≤◌, ◌≡◌, Bool, List, [], ◌∷◌, Text, ◌=t◌, =t→eq, ok, keep, take, length, All,
  arith, Bool-cases, inl, inr,
}
use gua.Base.Int.{ℤ, pos, negsuc}
use gua.Queue.Types.{HistoryEntry}
use gua.Queue.Monad.{World, query}
use gua.Queue.Reads.{place, order_by, newer, page_limit, history}

-- The newest first.
abbrev pub Descending : List HistoryEntry → Type 0
Descending [] = Unit
Descending (e ∷ es) = All (λ f. f.seq ≤ e.seq) es × Descending es

module _ {A : Type 0} (P : A → Type 0) (before : A → A → Bool) where
  All-place : (x : A) (xs : List A) → P x → All P xs → All P (place before x xs)
  All-place x [] p h = (p, tt)
  All-place x (y ∷ ys) p (q, h) = elim (Bool-cases (before y x)) [
    | inl first ↦ rw first (q, All-place x ys p h)
    | inr last ↦ rw last (p, (q, h))
  ]

  All-order_by : (xs : List A) → All P xs → All P (order_by before xs)
  All-order_by [] h = tt
  All-order_by (x ∷ xs) (p, h) = All-place x (order_by before xs) p (All-order_by xs h)

module _ {A : Type 0} (P : A → Type 0) where
  All-take : (n : ℕ) (xs : List A) → All P xs → All P (take n xs)
  All-take zero xs h = tt
  All-take (suc n) [] h = tt
  All-take (suc n) (x ∷ xs) (p, h) = (p, All-take n xs h)

  All-weaken : (Q : A → Type 0) (xs : List A) → ((x : A) → P x → Q x) → All P xs → All Q xs
  All-weaken Q [] i h = tt
  All-weaken Q (x ∷ xs) i (p, h) = (i x p, All-weaken Q xs i h)

length-take : {A : Type 0} (n : ℕ) (xs : List A) → length (take n xs) ≤ n
length-take zero xs = omega arith
length-take (suc n) [] = omega arith
length-take (suc n) (x ∷ xs) = omega (arith, length-take n xs)

All-keep :
    (group : Text) (es : List HistoryEntry)
    → All (λ e. e.group_name ≡ group) (keep (λ e. e.group_name =t group) es)
All-keep group [] = tt
All-keep group (e ∷ es) = elim (Bool-cases (e.group_name =t group)) [
  | inl mine ↦ rw mine (=t→eq e.group_name group mine, All-keep group es)
  | inr other ↦ rw other (All-keep group es)
]

place-Descending :
    (e : HistoryEntry) (es : List HistoryEntry) → Descending es → Descending (place newer e es)
place-Descending e [] d = (tt, tt)
place-Descending e (f ∷ fs) (h, d) = elim (Bool-cases (newer f e)) [
  | inl first ↦
      rw first (All-place (λ g. g.seq ≤ f.seq) newer e fs (ground arith) h, place-Descending e fs d)
  | inr last ↦ rw last (
    (
      ground arith,
      All-weaken (λ g. g.seq ≤ f.seq) (λ g. g.seq ≤ e.seq) fs (λ g le. ground arith) h,
    ),
    (h, d),
  )
]

order_by-Descending : (es : List HistoryEntry) → Descending (order_by newer es)
order_by-Descending [] = tt
order_by-Descending (e ∷ es) = place-Descending e (order_by newer es) (order_by-Descending es)

take-Descending : (n : ℕ) (es : List HistoryEntry) → Descending es → Descending (take n es)
take-Descending zero es d = tt
take-Descending (suc n) [] d = tt
take-Descending (suc n) (e ∷ es) (h, d) =
    (All-take (λ g. g.seq ≤ e.seq) n es h, take-Descending n es d)

page_limit-le : (limit : ℤ) → page_limit limit ≤ 1000
unfolding page_limit
page_limit-le (pos n) = ground arith
page_limit-le (negsuc n) = ground arith

history-page :
    (group : Text) (limit : ℤ) (w : World) {page : List HistoryEntry}
    → (history group limit w).0 ≡ ok page
    → page
      ≡ take
          (page_limit limit)
          (order_by newer (keep (λ e. e.group_name =t group) w.store.executions))
unfolding history query
history-page group limit w h = ground arith

-- A page of the history that is returned holds at most 1000 entries, whatever limit is asked for, all
-- of the group, the newest first.
pub history-Descending :
    (group : Text) (limit : ℤ) (w : World) {page : List HistoryEntry}
    → (history group limit w).0 ≡ ok page
    → (length page ≤ 1000) × All (λ e. e.group_name ≡ group) page × Descending page
history-Descending group limit w h =
    let mine = keep (λ (e : HistoryEntry). e.group_name =t group) w.store.executions in
    let sorted = order_by newer mine in
    rw (history-page group limit w h) (
      omega (arith, length-take (page_limit limit) sorted, page_limit-le limit),
      All-take (λ e. e.group_name ≡ group) (page_limit limit) sorted
          (All-order_by (λ e. e.group_name ≡ group) newer mine (All-keep group w.store.executions)),
      take-Descending (page_limit limit) sorted (order_by-Descending mine),
    )
