-- ===== src/Http/Router/Calls.antt =====
-- The POST routes of groups and of jobs through the router of cmd.go, as a client calls them.
use gua.Base.{◌≡◌, ◌∙◌, refl, ap, Option, [], ◌∷◌, List, Text, codes, ◌=t◌, Result, ok, err}
use gua.Base.Int.{ℤ}
use gua.Queue.Types.{Error}
use gua.Queue.Store.{Insert}
use gua.Queue.Monad.{World}
use gua.Queue.Admin
use gua.Http.Types.{AddJobPayload, Answer, text, write_json, read_json, bytes}
use gua.Http.Handlers
use gua.Http.Handlers.{Input, no_job, id_or, job_of, answer, reply}
use gua.Http.Router.{
  HttpRequest, Setup, input, run, serve, dispatch, routes, match_path, allows, register_group,
  add_job,
}
use gua.Http.Router.Safety.{answer-world}

-- A request by POST, to a path, with a body that is read without an error.
abbrev pub posted : List Text → Text → HttpRequest
posted path body = record {
  method = codes "POST";
  path = path;
  limit = [];
  name = [];
  body = bytes body;
}

abbrev pub groups_path : List Text
groups_path = codes "v1" ∷ codes "groups" ∷ []

abbrev pub jobs_path : Text → List Text
jobs_path group = codes "v1" ∷ codes "groups" ∷ group ∷ codes "jobs" ∷ []

answer_ok :
    (show : Unit {0} → Answer) (x : Result Error Unit × World)
    → x.0 ≡ ok tt
    → answer show x ≡ (write_json (show tt) 200, x.1)
answer_ok show (ok tt, w) done = refl
answer_ok show (err e, w) done = cc

module _ (insert : Insert) (parse_duration : Text → Option ℤ) (c : Setup) (w : World) where
  serve-register :
      (body : Text)
      → serve insert parse_duration c (posted groups_path body) w
        ≡ run insert parse_duration c register_group
            (input insert parse_duration c
              (posted groups_path body)
              (record { group = []; job = [] }))
            w
  unfolding serve dispatch routes match_path allows ◌=t◌
  serve-register body = refl

  serve-add :
      (group body : Text)
      → serve insert parse_duration c (posted (jobs_path group) body) w
        ≡ run insert parse_duration c add_job
            (input insert parse_duration c
              (posted (jobs_path group) body)
              (record { group = group; job = [] }))
            w
  unfolding serve dispatch routes match_path allows ◌=t◌
  serve-add group body = refl

  -- The world behind a group that was posted.
  pub serve-register-world :
      (body group : Text)
      → read_json (bytes body) (record { group_name = [] }) c.json.group_payload
        ≡ ok (record { group_name = group })
      → (serve insert parse_duration c (posted groups_path body) w).1
        ≡ (Admin.register_group group w).1
  unfolding run Handlers.register_group
  serve-register-world body group read =
      ap (λ x. x.1) (serve-register body)
      ∙ rw read (answer-world (reply group) (Admin.register_group group w))

  -- A job that was posted and that the queue takes is answered by its id.
  pub serve-add-ok :
      (group body : Text) (p : AddJobPayload)
      → read_json (bytes body) no_job c.json.add_payload ≡ ok p
      → let pushed =
          Admin.push insert parse_duration c.now (job_of group (id_or c.uid p.job_id) p) w in
        pushed.0 ≡ ok tt
        → serve insert parse_duration c (posted (jobs_path group) body) w
          ≡ (write_json (text (id_or c.uid p.job_id)) 200, pushed.1)
  unfolding run Handlers.add_job
  serve-add-ok group body p read done =
      serve-add group body ∙ rw read (answer_ok (reply (id_or c.uid p.job_id)) _ done)
