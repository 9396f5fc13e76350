-- ===== src/Demo/Broker.antt =====
-- The broker of example/app/main.go and handleEvents, which streams its messages to a browser. A step is what
-- one goroutine does at once: the broker's methods hold its lock. An operation on a closed channel
-- is a panic of Go: `none`.
pub mod Streams
pub mod Hub
use gua.Base.{
  ℕ, suc, zero, Bool, true, false, Option, none, some, List, [], ◌∷◌, ◌++◌, Text, codes,
  if◌then◌else◌, length, ltb,
}

-- What `make(chan string, 16)` holds.
abbrev pub channel_size : ℕ
channel_size = 16

-- A call of `handleEvents`: what its channel holds, if the channel is open, if the channel is a key of the
-- broker's map, and the data of the events that are written.
pub record Stream : Type 0 where
  pub buffer : List Text
  pub is_open : Bool
  pub is_client : Bool
  pub written : List Text

infixl 5 ◌>>=◌
abbrev pub ◌>>=◌ : {A B : Type 0} → Option A → (A → Option B) → Option B
none >>= f = none
some a >>= f = f a

abbrev pub ready : Text
ready = codes "{\"type\":\"ready\"}"

-- `sub`, and the first event.
abbrev pub sub : List Stream → List Stream
sub ss = ss ++ record { buffer = []; is_open = true; is_client = true; written = ready ∷ [] } ∷ []

-- `select { case ch <- data: default: }`.
abbrev pub send : Text → Stream → Option Stream
send data' s =
    if s.is_open
    then some (
        if ltb (length s.buffer) channel_size
        then record s { buffer = s.buffer ++ data' ∷ [] }
        else s)
    else none

abbrev pub offer : Text → Stream → Option Stream
offer data' s = if s.is_client then send data' s else some s

unfoldable pub broadcast : Text → List Stream → Option (List Stream)
broadcast data' [] = some []
broadcast data' (s ∷ ss) = do s' ← offer data' s; ss' ← broadcast data' ss; some (s' ∷ ss')

-- `close(ch)`.
abbrev pub close : Stream → Option Stream
close s = if s.is_open then some (record s { is_open = false }) else none

unfoldable pub unsub : Stream → Option Stream
unsub s = if s.is_client then close (record s { is_client = false }) else some s

abbrev pub written_next : List Text → Stream → Stream
written_next [] s = s
written_next (msg ∷ rest) s = record s { buffer = rest; written = s.written ++ msg ∷ [] }

-- `case msg := <-ch`, which waits while the channel is empty. A stream that has left reads no more.
unfoldable pub write : Stream → Stream
write s = if s.is_client then written_next s.buffer s else s

unfoldable pub change : ℕ → (Stream → Option Stream) → List Stream → Option (List Stream)
change n f [] = some []
change zero f (s ∷ ss) = do s' ← f s; some (s' ∷ ss)
change (suc n) f (s ∷ ss) = do ss' ← change n f ss; some (s ∷ ss')

-- A browser connects; the broker gets a message; the stream with a number writes its next message; or its
-- request is over.
pub data Event : Type 0 where
  connect : Event
  publish : Text → Event
  next leave : ℕ → Event

unfoldable pub step : Event → List Stream → Option (List Stream)
step connect ss = some (sub ss)
step (publish data') ss = broadcast data' ss
step (next n) ss = change n (λ s. some (write s)) ss
step (leave n) ss = change n unsub ss

unfoldable pub run : List Event → List Stream → Option (List Stream)
run [] ss = some ss
run (e ∷ es) ss = step e ss >>= λ ss'. run es ss'

-- Opens the code above, for a run on concrete events.
unfoldable pub broker_code : Unit {0}
unfolding broadcast unsub write change step run
broker_code = tt
