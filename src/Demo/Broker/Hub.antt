-- ===== src/Demo/Broker/Hub.antt =====
-- All streams of example/app/main.go over any events.
use gua.Base.{
  ℕ, suc, zero, ◌≡◌, refl, ap, subst, false, Option, some, List, [], ◌∷◌, map, Text, arith,
}
use mathlib.Core.List.Sublistᴰ
use mathlib.Core.List.{Forall₂}
use gua.Demo.Broker.{
  Stream, ready, sub, broadcast, unsub, write, change, Event, connect, publish, next, leave, step,
  run,
}
use gua.Demo.Broker.Streams.{
  Listener, hear, at, observe, follow, Follows, Kept, offer-Kept, unsub-Kept, write-Follows,
}

-- A list of streams after a step that does not panic.
abbrev pub KeptAll : Option (List Stream) → List Listener → Type 0
KeptAll r ls = (ss : List Stream) × (r ≡ some ss) × Forall₂ Follows ss ls

pub broadcast-KeptAll :
    (m : Text) {ss : List Stream} {ls : List Listener}
    → Forall₂ Follows ss ls
    → KeptAll (broadcast m ss) (map (hear m) ls)
unfolding broadcast
broadcast-KeptAll m Forall₂.nil = ([], refl, Forall₂.nil)
broadcast-KeptAll m (Forall₂.cons {a = s} {b = l} f fs) =
    let (s', e, f') = offer-Kept m s l f in
    let (ss', es, fs') = broadcast-KeptAll m fs in
    (s' ∷ ss', ground (arith, e, es), Forall₂.cons f' fs')

module _ (f : Stream → Option Stream) (g : Listener → Listener)
    (kept : (s : Stream) (l : Listener) → Follows s l → Kept (f s) (g l)) where
  change-KeptAll :
      (n : ℕ) {ss : List Stream} {ls : List Listener}
      → Forall₂ Follows ss ls
      → KeptAll (change n f ss) (at n g ls)
  unfolding change
  change-KeptAll n Forall₂.nil = ([], refl, Forall₂.nil)
  change-KeptAll zero (Forall₂.cons {a = s} {b = l} {l₁ = ss} h hs) =
      let (s', e, h') = kept s l h in (s' ∷ ss, ground (arith, e), Forall₂.cons h' hs)
  change-KeptAll (suc n) (Forall₂.cons {a = s} h hs) =
      let (ss', es, hs') = change-KeptAll n hs in (s ∷ ss', ground (arith, es), Forall₂.cons h hs')

sub-Follows :
    {ss : List Stream} {ls : List Listener}
    → Forall₂ Follows ss ls
    → Forall₂ Follows (sub ss) (observe connect ls)
sub-Follows Forall₂.nil =
    Forall₂.cons
      (record {
        client = refl;
        open' = refl;
        bounded = omega arith;
        begun = omega arith;
        heard = Sublistᴰ.refl (ready ∷ []);
        complete = λ _. refl;
      })
      Forall₂.nil
sub-Follows (Forall₂.cons h hs) = Forall₂.cons h (sub-Follows hs)

at-id : (n : ℕ) (ls : List Listener) → at n (λ l. l) ls ≡ ls
at-id n [] = refl
at-id zero (l ∷ ls) = refl
at-id (suc n) (l ∷ ls) = ap (λ ls. l ∷ ls) (at-id n ls)

step-KeptAll :
    (e : Event) {ss : List Stream} {ls : List Listener}
    → Forall₂ Follows ss ls
    → KeptAll (step e ss) (observe e ls)
unfolding step
step-KeptAll connect {ss} hs = (sub ss, refl, sub-Follows hs)
step-KeptAll (publish msg) hs = broadcast-KeptAll msg hs
step-KeptAll (next n) {ss} {ls} hs = subst (KeptAll _) (at-id n ls) (
    change-KeptAll (λ s. some (write s)) (λ l. l) (λ s l f. (write s, refl, write-Follows s l f)) n
      hs)
step-KeptAll (leave n) hs =
    change-KeptAll unsub (λ l. record l { is_there = false }) unsub-Kept n hs

run-KeptAll :
    (es : List Event) {ss : List Stream} {ls : List Listener}
    → Forall₂ Follows ss ls
    → KeptAll (run es ss) (follow es ls)
unfolding run
run-KeptAll [] {ss} hs = (ss, refl, hs)
run-KeptAll (e ∷ es) hs =
    let (ss₁, first, hs₁) = step-KeptAll e hs in
    let (ss₂, rest, hs₂) = run-KeptAll es hs₁ in (ss₂, ground (arith, first, rest), hs₂)

-- Whatever browsers, messages and ends of requests come in whatever order, the broker never panics, and
-- each stream follows its browser: its channel is open exactly while it is a client and holds 16 messages at
-- most, what is written and what waits are messages that were published while the browser was there, in
-- order behind the first event, and, where these are 16 at most, all of them.
pub run-Follows :
    (es : List Event)
    → (ss : List Stream) × (run es [] ≡ some ss) × Forall₂ Follows ss (follow es [])
run-Follows es = run-KeptAll es Forall₂.nil
