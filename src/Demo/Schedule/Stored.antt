-- ===== src/Demo/Schedule/Stored.antt =====
-- handleSchedule of example/app/main.go in front of gua's HTTP API: cmd.go's router, its handlers and the
-- queue under them.
use gua.Base.{
  ℕ, ◌+◌, ◌^◌, ◌<◌, ◌≡◌, true, Option, some, [], ◌∷◌, ◌++◌, Text, codes, ◌=t◌, ok, any, List,
}
use gua.Base.Int.{ℤ, pos}
use gua.Queue.Types.{Job, is_target, validate_name}
use gua.Queue.Store.{Insert}
use gua.Queue.Monad.{World}
use gua.Queue.Admin
use gua.Queue.Admin.Effects.{args}
use gua.Queue.Worker.Ends.{Inserts}
use gua.Http.Types.{Envelope, AddJobPayload, read_json, bytes}
use gua.Http.Types
use gua.Http.Handlers.{no_job, job_of}
use gua.Http.Router.{Setup, serve}
use gua.Http.Router.Calls.{posted}
use gua.Demo.Schedule.Decoded.{requested, add_payload_of, group_payload_of}
use gua.Demo.Schedule.{group, Object, Schedule, clamped, group_object, job_object, Demo, Post}

-- What gua makes of a POST, where the network does not fail.
abbrev pub served : Insert → (Text → Option ℤ) → Setup → Post World Envelope
served insert parse_duration c path body w =
    let (r, w') = serve insert parse_duration c (posted path body) w in
    (some (r.status, r.body), w')

-- The job of a request, as it is stored.
abbrev pub stored : Text → Text → ℕ → Schedule → Job
stored uid hook_url now s = record {
  name = codes "demo-job";
  id = uid;
  exectime = pos (now + clamped s.delay);
  timeout = pos 0;
  interval_pattern = codes "@once";
  request_url = codes "HTTP@" ++ hook_url;
  payload = s.payload;
  group_name = group;
  active = true;
  memo = [];
}

-- The group is there behind a registration, whether it was there before or not.
record Registered (w w' : World) : Type 0 where
  calm : w'.faults ≡ []
  same : w'.store.jobs ≡ w.store.jobs
  river : w'.store.river ≡ w.store.river
  housed : any (λ g. g =t group) w'.store.groups ≡ true

-- What gua has behind a job that it takes: the definition, and its first occurrence.
pub record Taken (insert : Insert) (uid hook_url : Text) (now : ℕ) (s : Schedule) (w w' : World)
    : Type 0 where
  pub definition : w'.store.jobs ≡ w.store.jobs ++ stored uid hook_url now s ∷ []
  pub occurrence :
      let at = pos (now + clamped s.delay) in
      insert w.store.river (args uid group at) at ≡ some w'.store.river

module _ (insert : Insert) (inserts : Inserts insert) (parse_duration : Text → Option ℤ) (c : Setup)
    (marshal : Object → Text) (hook_url : Text) (now : ℕ) (s : Schedule)
    (reads_group : read_json
        (bytes (marshal group_object))
        (record { group_name = [] })
        c.json.group_payload
      ≡ ok (group_payload_of group_object))
    (reads_job : read_json (bytes (marshal (job_object hook_url now s))) no_job c.json.add_payload
      ≡ ok (add_payload_of (job_object hook_url now s)))
    (named : validate_name c.uid ≡ ok tt) (clean : is_target hook_url ≡ true) (begun : 0 < now)
    (small : now + clamped s.delay < 2 ^ 63) where
  abbrev job : Job
  job = job_of group c.uid (requested hook_url now s)
