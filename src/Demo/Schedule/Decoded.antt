-- ===== src/Demo/Schedule/Decoded.antt =====
-- What httpv1's json.Unmarshal reads of an object that the demo's json.Marshal wrote (the tags of
-- httpv1/spec.go): each field has the value at the key of its tag, and zero where the object has no such
-- key.
use gua.Base.{◌≡◌, refl, Text, codes, ◌=t◌, [], ◌∷◌, ◌++◌, if◌then◌else◌, ℕ}
use gua.Base.Int.{ℤ, pos}
use gua.Http.Types.{AddJobPayload, RegisterGroupPayload}
use gua.Demo.Schedule.{
  group, Object, Value, text, number, Schedule, exec_time, group_object, job_object,
}

abbrev text_of : Value → Text
text_of (text t) = t
text_of (number n) = []

abbrev number_of : Value → ℤ
number_of (text t) = pos 0
number_of (number n) = n

pub text_at : Text → Object → Text
text_at key [] = []
text_at key ((k, v) ∷ o) = if k =t key then text_of v else text_at key o

pub number_at : Text → Object → ℤ
number_at key [] = pos 0
number_at key ((k, v) ∷ o) = if k =t key then number_of v else number_at key o

abbrev pub add_payload_of : Object → AddJobPayload
add_payload_of o = record {
  job_id = text_at (codes "job_id") o;
  name = text_at (codes "name") o;
  exec_time = number_at (codes "exec_time") o;
  request_url = text_at (codes "request_url") o;
  interval_pattern = text_at (codes "interval_pattern") o;
  payload = text_at (codes "payload") o;
  timeout = number_at (codes "timeout") o;
  memo = text_at (codes "memo") o;
}

abbrev pub group_payload_of : Object → RegisterGroupPayload
group_payload_of o = record { group_name = text_at (codes "group_name") o }

-- The job of a request, as the API reads it.
abbrev pub requested : Text → ℕ → Schedule → AddJobPayload
requested hook_url now s = record {
  job_id = [];
  name = codes "demo-job";
  exec_time = exec_time now s;
  request_url = codes "HTTP@" ++ hook_url;
  interval_pattern = codes "@once";
  payload = s.payload;
  timeout = pos 0;
  memo = [];
}

pub job_object-requested :
    (hook_url : Text) (now : ℕ) (s : Schedule)
    → add_payload_of (job_object hook_url now s) ≡ requested hook_url now s
unfolding text_at number_at ◌=t◌
job_object-requested hook_url now s = refl

pub group_object-group : group_payload_of group_object ≡ record { group_name = group }
unfolding text_at ◌=t◌
group_object-group = refl
