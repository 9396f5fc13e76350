-- ===== src/Demo/Broker/Streams.antt =====
-- What the streams of example/app/main.go write, against a broker without channels.
use gua.Base.{
  ℕ, suc, zero, ◌+◌, ◌≤◌, ◌<◌, ◌≡◌, ◌∙◌, refl, sym, ap, subst, Bool, true, false, Option, some,
  List, [], ◌∷◌, ◌++◌, map, Text, if◌then◌else◌, length, length-append, ltb, Bool-cases, inl, inr,
  arith,
}
use mathlib.Core.List.Sublistᴰ
use mathlib.Core.List.{Sublistᴰ, append_assoc, append-nil}
use gua.Demo.Broker.{
  channel_size, Stream, ready, offer, unsub, write, written_next, Event, connect, publish, next,
  leave,
}

-- A browser: if it is connected, and the messages that were meant for it.
pub record Listener : Type 0 where
  pub is_there : Bool
  pub texts : List Text

abbrev pub hear : Text → Listener → Listener
hear msg l = if l.is_there then record l { texts = l.texts ++ msg ∷ [] } else l

-- The listener with a number, changed.
abbrev pub at : ℕ → (Listener → Listener) → List Listener → List Listener
at n g [] = []
at zero g (l ∷ ls) = g l ∷ ls
at (suc n) g (l ∷ ls) = l ∷ at n g ls

abbrev pub observe : Event → List Listener → List Listener
observe connect ls = ls ++ record { is_there = true; texts = ready ∷ [] } ∷ []
observe (publish msg) ls = map (hear msg) ls
observe (next n) ls = ls
observe (leave n) ls = at n (λ l. record l { is_there = false }) ls

abbrev pub follow : List Event → List Listener → List Listener
follow [] ls = ls
follow (e ∷ es) ls = follow es (observe e ls)

-- What is written and what waits are messages that were meant for the browser, in order; while these are
-- no more than the channel holds, besides the first, all of them.
pub record Follows (s : Stream) (l : Listener) : Type 0 where
  pub client : s.is_client ≡ l.is_there
  pub open' : s.is_open ≡ l.is_there
  pub bounded : length s.buffer ≤ channel_size
  pub begun : 1 ≤ length s.written
  pub heard : Sublistᴰ (s.written ++ s.buffer) l.texts
  pub complete : length l.texts ≤ channel_size + 1 → s.written ++ s.buffer ≡ l.texts

-- A step on one stream that does not panic, and after which it follows a listener.
abbrev pub Kept : Option Stream → Listener → Type 0
Kept r l = (s : Stream) × (r ≡ some s) × Follows s l

heard_one_more :
    {xs ys : List Text} (m : Text) → Sublistᴰ xs ys → Sublistᴰ (xs ++ m ∷ []) (ys ++ m ∷ [])
heard_one_more m h = Sublistᴰ.append h (Sublistᴰ.refl (m ∷ []))

heard_less : {xs ys : List Text} (m : Text) → Sublistᴰ xs ys → Sublistᴰ xs (ys ++ m ∷ [])
heard_less {xs} {ys} m h =
    subst (λ l. Sublistᴰ l (ys ++ m ∷ [])) (append-nil xs)
      (Sublistᴰ.append h (Sublistᴰ.nil-sublist (m ∷ [])))

hear_there :
    (m : Text) (l : Listener)
    → l.is_there ≡ true
    → record l { texts = l.texts ++ m ∷ [] } ≡ hear m l
hear_there m l there = ground (arith, there)

module _ (m : Text) (s : Stream) (l : Listener) (f : Follows s l) where
  sent-Follows :
      length s.buffer < channel_size
      → Follows (record s { buffer = s.buffer ++ m ∷ [] }) (record l { texts = l.texts ++ m ∷ [] })
  sent-Follows room = record {
    client = f.client;
    open' = f.open';
    bounded = omega (arith, room, length-append s.buffer (m ∷ []));
    begun = f.begun;
    heard =
        subst (λ x. Sublistᴰ x (l.texts ++ m ∷ [])) (append_assoc s.written s.buffer (m ∷ []))
          (heard_one_more m f.heard);
    complete = λ few.
        sym (append_assoc s.written s.buffer (m ∷ []))
        ∙ ap (λ x. x ++ m ∷ []) (f.complete (omega (arith, few, length-append l.texts (m ∷ []))));
  }

  dropped-Follows :
      channel_size ≤ length s.buffer → Follows s (record l { texts = l.texts ++ m ∷ [] })
  dropped-Follows full = record {
    client = f.client;
    open' = f.open';
    bounded = f.bounded;
    begun = f.begun;
    heard = heard_less m f.heard;
    complete = λ few.
        let short : length l.texts ≤ channel_size =
          omega (arith, few, length-append l.texts (m ∷ [])) in
        absurd (
          omega (
            arith,
            full,
            short,
            f.begun,
            ap length (f.complete (omega (arith, short))),
            length-append s.written s.buffer,
          ));
  }

  pub offer-Kept : Kept (offer m s) (hear m l)
  offer-Kept = elim (Bool-cases l.is_there) [
    | inl there ↦ elim (Bool-cases (ltb (length s.buffer) channel_size)) [
      | inl room ↦ (
        record s { buffer = s.buffer ++ m ∷ [] },
        ground (arith, f.client, f.open'),
        subst (Follows _) (hear_there m l there) (sent-Follows (ground arith)),
      )
      | inr full ↦ (
        s,
        ground (arith, f.client, f.open'),
        subst (Follows s) (hear_there m l there) (dropped-Follows (ground arith)),
      )
    ]
    | inr away ↦ (s, ground (arith, f.client), simp away f)
  ]

pub unsub-Kept :
    (s : Stream) (l : Listener) → Follows s l → Kept (unsub s) (record l { is_there = false })
unfolding unsub
unsub-Kept s l f = elim (Bool-cases l.is_there) [
  | inl there ↦ (
    record s { is_open = false; is_client = false },
    ground (arith, f.client, f.open'),
    record {
      client = refl;
      open' = refl;
      bounded = f.bounded;
      begun = f.begun;
      heard = f.heard;
      complete = f.complete;
    },
  )
  | inr away ↦ (
    s,
    ground (arith, f.client),
    record {
      client = f.client ∙ away;
      open' = f.open' ∙ away;
      bounded = f.bounded;
      begun = f.begun;
      heard = f.heard;
      complete = f.complete;
    },
  )
]

pub write-Follows : (s : Stream) (l : Listener) → Follows s l → Follows (write s) l
unfolding write
write-Follows s l f = elim (Bool-cases s.is_client) [
  | inl there ↦ simp there (by_buffer s.buffer refl)
  | inr away ↦ simp away f
]
  where
    by_buffer : (b : List Text) → s.buffer ≡ b → Follows (written_next b s) l
    by_buffer [] e = f
    by_buffer (m ∷ rest) e =
        let regroup : (s.written ++ m ∷ []) ++ rest ≡ s.written ++ s.buffer =
          append_assoc s.written (m ∷ []) rest ∙ ap (λ b. s.written ++ b) (sym e) in
        record {
          client = f.client;
          open' = f.open';
          bounded = omega (arith, f.bounded, ap length e);
          begun = omega (arith, f.begun, length-append s.written (m ∷ []));
          heard = subst (λ x. Sublistᴰ x l.texts) (sym regroup) f.heard;
          complete = λ few. regroup ∙ f.complete few;
        }
