-- ===== src/Http/Router/Safety.antt =====
-- What the endpoints of cmd.go and httpv1/http.go do to the tables, beside the requests of Queue/Requests.
use gua.Base.{
  ℕ, ◌≡◌, ◌∙◌, refl, sym, ap, inl, inr, Bool, true, false, Option, none, some, List, [], ◌∷◌, Text,
  codes, ◌=t◌, Result, ok, err, Bool-cases, if◌then◌else◌, ◌&&◌, ◌==◌, arith,
}
use gua.Base.Int.{ℤ, pos}
use gua.Base.Strings.{atoi}
use gua.Queue.Types.{Error, invalid, not_found, duplicate, storage}
use gua.Queue.Store.{Insert}
use gua.Queue.Monad.{World, Db, as_unit, discard-world}
use gua.Queue.Admin
use gua.Queue.Reads
use gua.Queue.Reads.Unchanged.{
  list_jobs-unchanged, group_info-unchanged, query_groups-unchanged, stats-unchanged,
  history-unchanged,
}
use gua.Queue.Requests
use gua.Queue.Requests.{Request, handle}
use gua.Http.Types.{
  EditJobPayload, number, text, Answer, Response, write_json, write_err, read_json, Body, broken,
  bytes,
}
use gua.Http.Handlers
use gua.Http.Handlers.{
  Handler, Input, Json, answer, with_payload, id_or, job_of, no_job, page_of, reply,
}
use gua.Http.Router.{
  Endpoint, version, ui, healthz, readyz, status, register_group, get_group_list, group_info,
  remove_group, add_job, get_job_list, delete_jobs, edit_job, delete_job, pause_job, active_job,
  history, Setup, run,
}

-- The status that the API documents for each result of the queue.
abbrev pub status_of : Result Error Unit → ℕ
status_of (ok tt) = 200
status_of (err invalid) = 400
status_of (err not_found) = 404
status_of (err duplicate) = 409
status_of (err storage) = 500

pub answer-world :
    {A : Type 0} (show : A → Answer) (x : Result Error A × World) → (answer show x).1 ≡ x.1
answer-world show (ok a, w) = refl
answer-world show (err e, w) = refl

answer-status :
    {A : Type 0} (show : A → Answer) (x : Result Error A × World)
    → (answer show x).0.status ≡ status_of (as_unit x.0)
unfolding write_err write_json
answer-status show (ok a, w) = refl
answer-status show (err invalid, w) = refl
answer-status show (err not_found, w) = refl
answer-status show (err duplicate, w) = refl
answer-status show (err storage, w) = refl

requested :
    (show : Unit {0} → Answer) (x : Result Error Unit × World)
    → ((answer show x).1 ≡ x.1) × ((answer show x).0.status ≡ status_of x.0)
requested show (ok tt, w) = (refl, answer-status show (ok tt, w))
requested show (err e, w) = (refl, answer-status show (err e, w))

-- What reading the body answers is never 200.
read_json-status :
    {P : Type 0} (b : Body) (z : P) (decode : List ℕ → Option P) {r : Response}
    → read_json b z decode ≡ err r
    → (r.status == 200) ≡ false
unfolding read_json write_json
read_json-status broken z decode h = ground arith
read_json-status (bytes []) z decode h = ground arith
read_json-status (bytes (b ∷ bs)) z decode h = ground arith

-- The endpoints that may change the tables.
abbrev pub mutates : Endpoint → Bool
mutates register_group = true
mutates remove_group = true
mutates add_job = true
mutates delete_jobs = true
mutates edit_job = true
mutates delete_job = true
mutates pause_job = true
mutates active_job = true
mutates _ = false

abbrev with_body : {P : Type 0} → Result Response P → (P → Option Request) → Option Request
with_body (ok p) f = f p
with_body (err r) f = none

module _ (insert : Insert) (parse_duration : Text → Option ℤ) (c : Setup) where
  -- The request of the queue that a call stands for: none for a call that reads, and for a call whose
  -- body is refused.
  abbrev pub request_of : Endpoint → Input → Option Request
  request_of register_group i =
      with_body (read_json i.body (record { group_name = [] }) c.json.group_payload)
        λ p. some (Requests.register p.group_name)
  request_of remove_group i = some (Requests.remove i.group)
  request_of add_job i = with_body (read_json i.body no_job c.json.add_payload) λ p. some (
      Requests.push_job (record {
        name = p.name;
        id = if p.job_id =t [] then c.uid else p.job_id;
        exectime = p.exec_time;
        timeout = p.timeout;
        interval_pattern = p.interval_pattern;
        request_url = p.request_url;
        payload = p.payload;
        group_name = i.group;
        active = true;
        memo = p.memo;
      }))
  request_of delete_jobs i = some (Requests.delete_named i.group i.name)
  request_of edit_job i =
      with_body (read_json i.body (record { request_url = []; payload = [] }) c.json.edit_payload)
        λ p.
          if p.request_url =t []
          then none
          else some (Requests.edit_job i.group i.job p.request_url p.payload)
  request_of delete_job i = some (Requests.delete_job i.group i.job)
  request_of pause_job i = some (Requests.pause_job i.group i.job)
  request_of active_job i =
      with_body (read_json i.body (record { exec_time = pos 0 }) c.json.active_payload)
        λ p. some (Requests.active_job i.group i.job p.exec_time)
  request_of _ i = none

  -- A response and the world behind it: those of the request, or those of a call without one.
  abbrev pub Served : Bool → Option Request → World → Response × World → Type 0
  Served changes none w x = (x.1.store ≡ w.store) × ((changes && (x.0.status == 200)) ≡ false)
  Served changes (some q) w x =
      (x.1 ≡ (handle insert parse_duration c.now q w).1)
      × (x.0.status ≡ status_of (handle insert parse_duration c.now q w).0)

  with_payload-Served :
      {P : Type 0} (read : Result Response P) (k : P → Handler) (f : P → Option Request) (w : World)
      → ((r : Response) → read ≡ err r → (r.status == 200) ≡ false)
      → ((p : P) → Served true (f p) w (k p w))
      → Served true (with_body read f) w (with_payload read k w)
  with_payload-Served (ok p) k f w refused served = served p
  with_payload-Served (err r) k f w refused served = (refl, refused r refl)

  answered :
      {A : Type 0} (show : A → Answer) (m : Db A) (w : World)
      → (m w).1.store ≡ w.store
      → Served false none w (answer show (m w))
  answered show m w same = (ap (λ v. v.store) (answer-world show (m w)) ∙ same, refl)

  edited :
      (i : Input) (w : World) (p : EditJobPayload)
      → Served true
          (if p.request_url =t []
            then none
            else some (Requests.edit_job i.group i.job p.request_url p.payload))
          w
          (if p.request_url =t []
            then (write_json (text (codes "request_url is required")) 400, w)
            else answer (reply i.job) (Admin.edit i.group i.job p.request_url p.payload w))
  unfolding write_json
  edited i w p = elim (Bool-cases (p.request_url =t [])) [
    | inl missing ↦ simp missing (refl, refl)
    | inr given ↦ simp given (requested _ (Admin.edit i.group i.job p.request_url p.payload w))
  ]

  paged :
      (group : Text) (limit : Option ℤ) (w : World) → Served false none w (page_of group limit w)
  paged group none w = (refl, refl)
  paged group (some limit) w =
      answered _ (Reads.history group limit) w (history-unchanged group limit w)

  -- Every endpoint, for every body and every fault of the database: a call that stands for a request of
  -- the queue does what that request does and answers the status for its result; any other call leaves
  -- the tables as they were, and does not answer 200 if its endpoint is one that changes them.
  pub run-Served :
      (e : Endpoint) (i : Input) (w : World)
      → Served (mutates e) (request_of e i) w (run insert parse_duration c e i w)
  unfolding run Handlers.version Handlers.status Handlers.history Handlers.register_group
      Handlers.get_group_list Handlers.group_info Handlers.remove_group Handlers.add_job
      Handlers.get_job_list Handlers.delete_jobs Handlers.edit_job Handlers.delete_job
      Handlers.pause_job Handlers.active_job
  run-Served version i w = (refl, refl)
  run-Served ui i w = (refl, refl)
  run-Served healthz i w = (refl, refl)
  run-Served readyz i w = (refl, refl)
  run-Served status i w = answered _ (Reads.stats c.now) w (stats-unchanged c.now w)
  run-Served register_group i w =
      with_payload-Served (read_json i.body (record { group_name = [] }) c.json.group_payload) _ _ w
        (λ r. read_json-status i.body _ c.json.group_payload)
        (λ p. requested _ (Admin.register_group p.group_name w))
  run-Served get_group_list i w =
      answered _ (Reads.query_groups c.collation) w (query_groups-unchanged c.collation w)
  run-Served group_info i w =
      answered _ (Reads.group_info i.group) w (group_info-unchanged i.group w)
  run-Served remove_group i w = requested _ (Admin.remove_group i.group w)
  run-Served add_job i w =
      with_payload-Served (read_json i.body no_job c.json.add_payload) _ _ w
        (λ r. read_json-status i.body no_job c.json.add_payload)
        (λ p.
          requested _
            (Admin.push insert parse_duration c.now (job_of i.group (id_or c.uid p.job_id) p) w))
  run-Served get_job_list i w =
      answered _ (Reads.list_jobs i.group) w (list_jobs-unchanged i.group w)
  run-Served delete_jobs i w =
      let m = Admin.delete_jobs i.group i.name in
      let (same, result) = discard-world m w in
      (answer-world number (m w) ∙ sym same, answer-status number (m w) ∙ ap status_of (sym result))
  run-Served edit_job i w =
      with_payload-Served
        (read_json i.body (record { request_url = []; payload = [] }) c.json.edit_payload) _ _ w
        (λ r. read_json-status i.body _ c.json.edit_payload) (λ p. edited i w p)
  run-Served delete_job i w = requested _ (Admin.delete i.group i.job w)
  run-Served pause_job i w = requested _ (Admin.pause i.group i.job w)
  run-Served active_job i w =
      with_payload-Served (read_json i.body (record { exec_time = pos 0 }) c.json.active_payload) _
        _ w (λ r. read_json-status i.body _ c.json.active_payload)
        (λ p. requested _ (Admin.active insert c.now i.group i.job p.exec_time w))
  run-Served history i w = paged i.group (if i.limit =t [] then some (pos 100) else atoi i.limit) w
