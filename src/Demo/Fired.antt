-- ===== src/Demo/Fired.antt =====
-- The delivery of a demo's job by gua: guaDeliverWorker.Work of delayquene/riverquene.go in front of handleHook
-- of example/app/main.go.
use gua.Base.{ℕ, ◌≡◌, true, Option, none, some, List, Text, ◌=t◌, if◌then◌else◌}
use gua.Queue.Types.{Job, is_target, TriggerEnvelope}
use gua.Queue.Monad.{World}
use gua.Queue.Worker.{Transport}
use gua.Demo.Schedule.{
  Object, Schedule, Hook, Content, message, relayed, raw, Reply, Demo, handle_hook,
}
use gua.Demo.Schedule.Stored.{stored}

-- The body and the status that the demo answers to gua.
abbrev text_of : {R : Type 0} → ℕ → Content R → Option (Text × ℕ)
text_of status (message t) = some (t, status)
text_of status (relayed t body) = none
text_of status (raw body) = none

abbrev answer_of : {R : Type 0} → Option (Reply R × Demo World) → Option (Text × ℕ)
answer_of none = none
answer_of (some (r, d)) = text_of r.status r.content

-- What encoding/json makes of an envelope for the demo, by the tags of both.
abbrev pub hook_of : TriggerEnvelope → Hook
hook_of env = record { payload = env.payload; job_id = env.job_id; exec_time = env.exec_time }

module _ (R : Type 0) (marshal : Object → Text) (hook_url : Text)
    (decode : TriggerEnvelope → Hook) where
  -- The demo as the only consumer, in its state at the delivery.
  abbrev pub consumer : Demo World → Transport
  consumer d = record {
    post = λ target timeout env.
        if target =t hook_url then answer_of (handle_hook {R = R} marshal (decode env) d) else none;
    on_job_trigger = λ target timeout env. none;
  }

  module _ (reads : (env : TriggerEnvelope) → decode env ≡ hook_of env) (uid : Text) (now : ℕ)
      (s : Schedule) (clean : is_target hook_url ≡ true) where
    abbrev def : Job
    def = stored uid hook_url now s
