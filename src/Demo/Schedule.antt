-- ===== src/Demo/Schedule.antt =====
-- handleSchedule, handleHook and ensureGroup of example/app/main.go. What http.Post makes of a call to gua
-- and what json.Marshal makes of an object are parameters; `none` is a panic of the broker.
pub mod Decoded
pub mod Stored
use gua.Base.{
  ℕ, ◌+◌, ◌-◌, ◌^◌, ◌%◌, Bool, true, false, Option, none, some, List, [], ◌∷◌, ◌++◌, Text, codes,
  ltb, if◌then◌else◌, ◌==◌,
}
use gua.Base.Int.{ℤ, pos, negsuc}
use gua.Demo.Broker.{Stream, broadcast}

abbrev pub group : Text
group = codes "demo"

-- `env`, with what is set; no text where it is not.
abbrev pub env : Text → Text → Text
env [] default_value = default_value
env (c ∷ v) default_value = c ∷ v

-- What `main` reads, by its variables.
pub record Config : Type 0 where
  pub gua_url : Text
  pub hook_url : Text
  pub static_dir : Text
  pub addr : Text

abbrev pub config : (Text → Text) → Config
config getenv = record {
  gua_url = env (getenv (codes "GUA_URL")) (codes "http://localhost:7777");
  hook_url = env (getenv (codes "HOOK_URL")) (codes "http://localhost:8080/hook");
  static_dir = env (getenv (codes "STATIC_DIR")) (codes "static");
  addr = env (getenv (codes "LISTEN")) (codes ":8080");
}

pub data Value : Type 0 where
  text : Text → Value
  number : ℤ → Value

-- A `map[string]any`, by its keys.
abbrev pub Object : Type 0
Object = List (Text × Value)

-- The body of POST /schedule and of POST /hook.
pub record Schedule : Type 0 where
  pub delay : ℤ
  pub payload : Text

pub record Hook : Type 0 where
  pub payload : Text
  pub job_id : Text
  pub exec_time : ℤ

-- `if in.Delay < 0 { in.Delay = 0 }`.
abbrev pub clamped : ℤ → ℕ
clamped (pos n) = n
clamped (negsuc n) = 0

-- An int64 by its bits.
abbrev pub int64 : ℕ → ℤ
int64 n =
    let bits = n % 2 ^ 64 in if ltb bits (2 ^ 63) then pos bits else negsuc (2 ^ 64 - bits - 1)

-- `time.Now().Unix() + int64(in.Delay)`.
abbrev pub exec_time : ℕ → Schedule → ℤ
exec_time now s = int64 (now + clamped s.delay)

abbrev pub group_object : Object
group_object = (codes "group_name", text group) ∷ []

abbrev pub job_object : Text → ℕ → Schedule → Object
job_object hook_url now s =
    (codes "name", text (codes "demo-job"))
    ∷ (codes "exec_time", number (exec_time now s))
    ∷ (codes "interval_pattern", text (codes "@once"))
    ∷ (codes "request_url", text (codes "HTTP@" ++ hook_url))
    ∷ (codes "payload", text s.payload)
    ∷ []

abbrev pub scheduled_object : ℕ → Schedule → Object
scheduled_object now s =
    (codes "type", text (codes "scheduled"))
    ∷ (codes "payload", text s.payload)
    ∷ (codes "delay", number (pos (clamped s.delay)))
    ∷ (codes "at", number (exec_time now s))
    ∷ []

abbrev pub fired_object : Hook → Object
fired_object h =
    (codes "type", text (codes "fired"))
    ∷ (codes "payload", text h.payload)
    ∷ (codes "job_id", text h.job_id)
    ∷ (codes "at", number h.exec_time)
    ∷ []

-- What is written: a message, gua's body behind a message, or gua's body.
pub data Content (R : Type 0) : Type 0 where
  message : Text → Content R
  relayed : Text → R → Content R
  raw : R → Content R

pub record Reply (R : Type 0) : Type 0 where
  pub status : ℕ
  pub content : Content R

-- The broker's streams, and gua behind the network.
pub record Demo (G : Type 0) : Type 0 where
  pub streams : List Stream
  pub gua : G

-- A call of gua by POST, to a path, with a body: a status and a body, or an error.
abbrev pub Post : Type 0 → Type 0 → Type 0
Post G R = List Text → Text → G → Option (ℕ × R) × G

abbrev pub published :
    {G R : Type 0} → Reply R → G → Option (List Stream) → Option (Reply R × Demo G)
published r g none = none
published r g (some streams) = some (r, record { streams = streams; gua = g })

module _ {G R : Type 0} (post : Post G R) (marshal : Object → Text) where
  -- Its answer is not read.
  unfoldable pub ensure_group : G → G
  ensure_group g = (post (codes "v1" ∷ codes "groups" ∷ []) (marshal group_object) g).1

  abbrev pub answered : ℕ → Schedule → List Stream → Option (ℕ × R) × G → Option (Reply R × Demo G)
  answered now s streams (none, g) = some (
    record { status = 502; content = message (codes "schedule failed: ") },
    record { streams = streams; gua = g },
  )
  answered now s streams (some (status, body), g) =
      if status == 200
      then published (record { status = 200; content = raw body }) g
          (broadcast (marshal (scheduled_object now s)) streams)
      else some (
        record { status = 502; content = relayed (codes "gua rejected: ") body },
        record { streams = streams; gua = g },
      )

  -- With the decoded body; none where it is not decoded.
  unfoldable pub handle_schedule : Text → ℕ → Option Schedule → Demo G → Option (Reply R × Demo G)
  handle_schedule hook_url now none d =
      some (record { status = 400; content = message (codes "bad body") }, d)
  handle_schedule hook_url now (some s) d = answered now s d.streams (
      post (codes "v1" ∷ codes "groups" ∷ group ∷ codes "jobs" ∷ [])
        (marshal (job_object hook_url now s)) (ensure_group d.gua))

module _ {G R : Type 0} (marshal : Object → Text) where
  -- With the fields that were decoded.
  unfoldable pub handle_hook : Hook → Demo G → Option (Reply R × Demo G)
  handle_hook h d =
      published (record { status = 200; content = message (codes "ok") }) d.gua
        (broadcast (marshal (fired_object h)) d.streams)
