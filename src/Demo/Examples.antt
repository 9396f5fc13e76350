-- ===== src/Demo/Examples.antt =====
-- The demo with one browser, before a queue with one job.
use gua.Base.{◌≡◌, refl, List, [], ◌∷◌, ◌++◌, none, some, Text, codes, false, true}
use gua.Base.Int.{pos, negsuc}
use mathlib.Core.List.{Forall₂}
use gua.Queue.Store.{RiverJob, running}
use gua.Queue.Monad.{World}
use gua.Queue.Sample.{occurrence, config, world, store}
use gua.Queue.Admin.Effects.{args}
use gua.Http.Types
use gua.Http.Router.{Setup}
use gua.Demo.Broker.{Stream, Event, connect, publish, next, leave, run, ready, broker_code}
use gua.Demo.Broker.Streams.{Follows, follow}
use gua.Demo.Broker.Hub.{run-Follows}
use gua.Demo.Schedule
use gua.Demo.Schedule.{Object, Schedule, Demo, group, group_object, job_object}
use gua.Demo.Schedule.Decoded.{add_payload_of, group_payload_of}
use gua.Demo.Schedule.Stored.{stored}

abbrev events : List Event
events =
    connect
    ∷ publish (codes "a")
    ∷ connect
    ∷ publish (codes "b")
    ∷ next 0
    ∷ leave 1
    ∷ leave 1
    ∷ publish (codes "c")
    ∷ []

run-Follows_example :
    (ss : List Stream) × (run events [] ≡ some ss) × Forall₂ Follows ss (follow events [])
run-Follows_example = run-Follows events

streams_after :
    run events []
    ≡ some (
        record {
          buffer = codes "b" ∷ codes "c" ∷ [];
          is_open = true;
          is_client = true;
          written = ready ∷ codes "a" ∷ [];
        }
        ∷ record {
          buffer = codes "b" ∷ [];
          is_open = false;
          is_client = false;
          written = ready ∷ [];
        }
        ∷ [])
unfolding broker_code
streams_after = refl

abbrev hook_url : Text
hook_url = (Schedule.config (λ key. [])).hook_url

abbrev request : Schedule
request = record { delay = negsuc 4; payload = codes "hi" }

-- The keys of an object.
abbrev marshal : Object → Text
marshal [] = []
marshal ((key, value) ∷ o) = key ++ marshal o

abbrev setup : Setup
setup = record {
  server_version = codes "1.0";
  ui_html = [];
  pings = true;
  now = pos 1000;
  uid = codes "u1";
  collation = λ a b. false;
  json = record {
    edit_payload = λ b. none;
    add_payload = λ b. some (add_payload_of (job_object hook_url 1000 request));
    group_payload = λ b. some (group_payload_of group_object);
    active_payload = λ b. none;
  };
}

abbrev demo : Demo World
demo = record { streams = (run-Follows (connect ∷ [])).0; gua = world }

-- Gua behind the request.
abbrev behind : World
behind = record world {
  store = record store {
    groups = store.groups ++ group ∷ [];
    jobs = store.jobs ++ stored setup.uid hook_url 1000 request ∷ [];
  };
}

abbrev waiting : Demo World
waiting = record demo { gua = behind }

abbrev row : RiverJob
row = record (occurrence 7 (args setup.uid group (pos 1000))) { state = running; attempt = 1 }
