-- ===== src/Grpc/Mirror.antt =====
-- The calls of grpc.go that change tables, beside Queue/Requests and the endpoints of httpv1/http.go.
use gua.Base.{
  if◌then◌else◌, true, [], ◌=t◌, ℕ, ◌≡◌, refl, sym, ap, ◌∙◌, subst, Option, none, some, Text,
  Result, ok, err,
}
use gua.Base.Int.{ℤ}
use gua.Queue.Types.{Error, invalid, not_found, duplicate, storage}
use gua.Queue.Store.{Insert}
use gua.Queue.Monad.{World}
use gua.Queue.Requests
use gua.Queue.Requests.{Request, handle}
use gua.Http.Handlers.{Input}
use gua.Http.Router.{Endpoint, Setup, run}
use gua.Http.Router.Safety.{status_of, request_of, mutates, Served, run-Served}
use gua.Grpc.{
  Code, invalid_argument, code_not_found, already_exists, internal, grpc_err, build_request_url,
  AddJobRequest, EditJobRequest, Call, reply, with_url, empty, id_of, job_of,
}
use gua.Grpc

-- The calls of the service that change the tables.
pub data AdminCall : Type 0 where
  register_group remove_group : Text → AdminCall
  add_job : AddJobRequest → AdminCall
  edit_job : EditJobRequest → AdminCall
  delete_job pause_job : Text → Text → AdminCall
  active_job : Text → Text → ℤ → AdminCall

-- The code for a result of the queue; none is no error.
abbrev pub code_of : Result Error Unit → Option Code
code_of (ok tt) = none
code_of (err invalid) = some invalid_argument
code_of (err not_found) = some code_not_found
code_of (err duplicate) = some already_exists
code_of (err storage) = some internal

abbrev error_of : {A : Type 0} → Result Code A → Option Code
error_of (ok a) = none
error_of (err c) = some c

module _ {A : Type 0} where
  -- The code that a caller sees.
  abbrev seen : Result Code A × World → Option Code × World
  seen (ok a, w) = (none, w)
  seen (err c, w) = (some c, w)

abbrev with_request : Result Error Text → (Text → Request) → Result Error Request
with_request (ok url) f = ok (f url)
with_request (err e) f = err e

module _ (insert : Insert) (parse_duration : Text → Option ℤ) (c : Setup) where
  -- The code and the world that a call leaves.
  pub run_call : AdminCall → World → Option Code × World
  run_call (register_group group) w = seen (Grpc.register_group group w)
  run_call (remove_group group) w = seen (Grpc.remove_group group w)
  run_call (add_job r) w = seen (Grpc.add_job insert c.now parse_duration c.uid r w)
  run_call (edit_job r) w = seen (Grpc.edit_job r w)
  run_call (delete_job group id) w = seen (Grpc.delete_job group id w)
  run_call (pause_job group id) w = seen (Grpc.pause_job group id w)
  run_call (active_job group id exec_time) w =
      seen (Grpc.active_job insert c.now group id exec_time w)

  -- The request of the queue that a call stands for, or the objection to its target.
  abbrev pub request_of_call : AdminCall → Result Error Request
  request_of_call (register_group group) = ok (Requests.register group)
  request_of_call (remove_group group) = ok (Requests.remove group)
  request_of_call (add_job r) = with_request (build_request_url r.delivery r.target) λ url.
      Requests.push_job (record {
        name = r.name;
        id = if r.job_id =t [] then c.uid else r.job_id;
        exectime = r.exec_time;
        timeout = r.timeout;
        interval_pattern = r.interval_pattern;
        request_url = url;
        payload = r.payload;
        group_name = r.group_name;
        active = true;
        memo = r.memo;
      })
  request_of_call (edit_job r) =
      with_request (build_request_url r.delivery r.target)
        λ url. Requests.edit_job r.group_name r.job_id url r.payload
  request_of_call (delete_job group id) = ok (Requests.delete_job group id)
  request_of_call (pause_job group id) = ok (Requests.pause_job group id)
  request_of_call (active_job group id exec_time) = ok (Requests.active_job group id exec_time)

  abbrev pub Called : Result Error Request → World → Option Code × World → Type 0
  Called (err e) w x = (x.0 ≡ code_of (err e)) × (x.1 ≡ w)
  Called (ok q) w x =
      let y = handle insert parse_duration c.now q w in (x.0 ≡ code_of y.0) × (x.1 ≡ y.1)

  replied :
      {B : Type 0} (show : Unit {0} → B) (x : Result Error Unit × World)
      → ((seen (reply show x)).0 ≡ code_of x.0) × ((seen (reply show x)).1 ≡ x.1)
  unfolding grpc_err
  replied show (ok tt, w) = (refl, refl)
  replied show (err invalid, w) = (refl, refl)
  replied show (err not_found, w) = (refl, refl)
  replied show (err duplicate, w) = (refl, refl)
  replied show (err storage, w) = (refl, refl)

  with_url-Called :
      {B : Type 0} (built : Result Error Text) (k : Text → Call B) (f : Text → Request) (w : World)
      → ((url : Text) → Called (ok (f url)) w (seen (k url w)))
      → Called (with_request built f) w (seen (with_url built k w))
  unfolding grpc_err
  with_url-Called (ok url) k f w called = called url
  with_url-Called (err invalid) k f w called = (refl, refl)
  with_url-Called (err not_found) k f w called = (refl, refl)
  with_url-Called (err duplicate) k f w called = (refl, refl)
  with_url-Called (err storage) k f w called = (refl, refl)

  pub run_call-Called : (k : AdminCall) (w : World) → Called (request_of_call k) w (run_call k w)
  unfolding run_call Grpc.register_group Grpc.remove_group Grpc.add_job Grpc.edit_job
      Grpc.delete_job Grpc.pause_job Grpc.active_job
  run_call-Called (register_group group) w = replied empty _
  run_call-Called (remove_group group) w = replied empty _
  run_call-Called (add_job r) w =
      with_url-Called (build_request_url r.delivery r.target) _ _ w λ url. replied _ _
  run_call-Called (edit_job r) w =
      with_url-Called (build_request_url r.delivery r.target) _ _ w λ url. replied empty _
  run_call-Called (delete_job group id) w = replied empty _
  run_call-Called (pause_job group id) w = replied empty _
  run_call-Called (active_job group id exec_time) w = replied empty _

  -- The HTTP status that means the same as a code.
  abbrev pub status_of_code : Option Code → ℕ
  status_of_code none = 200
  status_of_code (some invalid_argument) = 400
  status_of_code (some code_not_found) = 404
  status_of_code (some already_exists) = 409
  status_of_code (some internal) = 500

  same_status : (r : Result Error Unit) → status_of r ≡ status_of_code (code_of r)
  same_status (ok tt) = refl
  same_status (err invalid) = refl
  same_status (err not_found) = refl
  same_status (err duplicate) = refl
  same_status (err storage) = refl

  -- A call over HTTP and one over gRPC that stand for the same request leave the same world, and the
  -- HTTP status is that of the gRPC code.
  pub run-run_call :
      (e : Endpoint) (i : Input) (k : AdminCall) (q : Request) (w : World)
      → request_of insert parse_duration c e i ≡ some q
      → request_of_call k ≡ ok q
      → ((run insert parse_duration c e i w).1 ≡ (run_call k w).1)
        × ((run insert parse_duration c e i w).0.status ≡ status_of_code (run_call k w).0)
  run-run_call e i k q w by_http by_grpc =
      let (http_world, http_status) =
        subst
          (λ o. Served insert parse_duration c (mutates e) o w (run insert parse_duration c e i w))
          by_http (run-Served insert parse_duration c e i w) in
      let (code, grpc_world) =
        subst (λ o. Called o w (run_call k w)) by_grpc (run_call-Called k w) in
      (
        http_world ∙ sym grpc_world,
        http_status
            ∙ same_status (handle insert parse_duration c.now q w).0
            ∙ ap status_of_code (sym code),
      )
