-- ===== src/Http/Handlers.antt =====
-- httpv1/http.go: the handlers. Each calls the queue and answers; a handler is a step of the world.
-- Logging is left out.
use gua.Base.{
  ℕ, Bool, true, Option, none, some, List, [], map, Text, codes, ◌=t◌, if◌then◌else◌, Result, ok,
  err,
}
use gua.Base.Int.{ℤ, pos}
use gua.Base.Strings.{atoi}
use gua.Queue.Types.{Error, Job}
use gua.Queue.Store.{Insert}
use gua.Queue.Monad.{World}
use gua.Queue.Admin
use gua.Queue.Reads
use gua.Http.Types.{
  EditJobPayload, AddJobPayload, RegisterGroupPayload, ActiveJobPayload, ResponseJobList, Answer,
  text, number, names, jobs, entries, snapshot, Response, write_json, write_err, Body, read_json,
}

abbrev pub Handler : Type 0
Handler = World → Response × World

-- What encoding/json makes of the bytes of a body that is not empty.
pub record Json : Type 0 where
  pub edit_payload : List ℕ → Option EditJobPayload
  pub add_payload : List ℕ → Option AddJobPayload
  pub group_payload : List ℕ → Option RegisterGroupPayload
  pub active_payload : List ℕ → Option ActiveJobPayload

-- The path values, the query's values and the body of a request.
pub record Input : Type 0 where
  pub group : Text
  pub job : Text
  pub limit : Text
  pub name : Text
  pub body : Body

-- `if err != nil { writeErr(…); return }; WriteJSON(…, http.StatusOK)`.
abbrev pub answer : {A : Type 0} → (A → Answer) → Result Error A × World → Response × World
answer show (ok a, w) = (write_json (show a) 200, w)
answer show (err e, w) = (write_err e, w)

-- `if !readJSON(w, r, &p) { return }`.
abbrev pub with_payload : {P : Type 0} → Result Response P → (P → Handler) → Handler
with_payload (ok p) k w = k p w
with_payload (err r) k w = (r, w)

abbrev pub reply : Text → Unit {0} → Answer
reply s _ = text s

unfoldable pub version : Text → Handler
version server_version w = (write_json (text server_version) 200, w)

unfoldable pub status : ℤ → Handler
status now w = answer snapshot (Reads.stats now w)

abbrev pub page_of : Text → Option ℤ → Handler
page_of group none w = (write_json (text (codes "limit must be an integer")) 400, w)
page_of group (some limit) w = answer entries (Reads.history group limit w)

unfoldable pub history : Input → Handler
history i = page_of i.group (if i.limit =t [] then some (pos 100) else atoi i.limit)

unfoldable pub group_info : Input → Handler
group_info i w = answer text (Reads.group_info i.group w)

unfoldable pub get_group_list : (Text → Text → Bool) → Handler
get_group_list before w = answer names (Reads.query_groups before w)

abbrev listed : Job → ResponseJobList
listed v = record {
  name = v.name;
  id = v.id;
  exec_time = v.exectime;
  interval_pattern = v.interval_pattern;
  request_url = v.request_url;
  payload = v.payload;
  timeout = v.timeout;
  group_name = v.group_name;
  active = v.active;
  memo = v.memo;
}

unfoldable pub get_job_list : Input → Handler
get_job_list i w = answer (λ js. jobs (map listed js)) (Reads.list_jobs i.group w)

unfoldable pub register_group : Json → Input → Handler
register_group json i =
    with_payload (read_json i.body (record { group_name = [] }) json.group_payload)
      λ p w. answer (reply p.group_name) (Admin.register_group p.group_name w)

unfoldable pub remove_group : Input → Handler
remove_group i w = answer (reply (codes "ok")) (Admin.remove_group i.group w)

abbrev pub no_job : AddJobPayload
no_job = record {
  job_id = [];
  name = [];
  exec_time = pos 0;
  request_url = [];
  interval_pattern = [];
  payload = [];
  timeout = pos 0;
  memo = [];
}

-- The id of a job, or a generated one where there is none.
abbrev pub id_or : Text → Text → Text
id_or uid id = if id =t [] then uid else id

abbrev pub job_of : Text → Text → AddJobPayload → Job
job_of group id p = record {
  name = p.name;
  id = id;
  exectime = p.exec_time;
  timeout = p.timeout;
  interval_pattern = p.interval_pattern;
  request_url = p.request_url;
  payload = p.payload;
  group_name = group;
  active = true;
  memo = p.memo;
}

unfoldable pub edit_job : Json → Input → Handler
edit_job json i =
    with_payload (read_json i.body (record { request_url = []; payload = [] }) json.edit_payload)
      λ p w.
        if p.request_url =t []
        then (write_json (text (codes "request_url is required")) 400, w)
        else answer (reply i.job) (Admin.edit i.group i.job p.request_url p.payload w)

unfoldable pub delete_job : Input → Handler
delete_job i w = answer (reply (codes "ok")) (Admin.delete i.group i.job w)

unfoldable pub delete_jobs : Input → Handler
delete_jobs i w = answer number (Admin.delete_jobs i.group i.name w)

unfoldable pub pause_job : Input → Handler
pause_job i w = answer (reply (codes "ok")) (Admin.pause i.group i.job w)

module _ (insert : Insert) (json : Json) (now : ℤ) where
  -- `uid` is what GenerateUID returns.
  unfoldable pub add_job : (Text → Option ℤ) → Text → Input → Handler
  add_job parse_duration uid i = with_payload (read_json i.body no_job json.add_payload) λ p w.
      let id = id_or uid p.job_id in
      answer (reply id) (Admin.push insert parse_duration now (job_of i.group id p) w)

  unfoldable pub active_job : Input → Handler
  active_job i =
      with_payload (read_json i.body (record { exec_time = pos 0 }) json.active_payload)
        λ p w. answer (reply (codes "ok")) (Admin.active insert now i.group i.job p.exec_time w)
