-- ===== src/Http/Router.antt =====
-- buildRouter, Healthz and Readyz of cmd.go. The routing of net/http is by method and by path segments:
-- a wildcard takes one segment, a GET route takes HEAD as well, a path with no route is answered by
-- 404, and a path that has routes for other methods only by 405. Redirects to clean paths are left out:
-- the segments of a path are not empty.
pub mod Safety
pub mod Serve
pub mod Reached
pub mod Calls
use gua.Base.{
  ℕ, Bool, true, false, ◌&&◌, ◌||◌, Option, none, some, List, [], ◌∷◌, Text, codes, ◌=t◌,
  if◌then◌else◌,
}
use gua.Base.Int.{ℤ}
use gua.Queue.Store.{Insert}
use gua.Queue.Monad.{World}
use gua.Queue.Admin.{admin_code}
use gua.Http.Types.{Response, plain, Body, write_json, write_err, read_json}
use gua.Http.Handlers
use gua.Http.Handlers.{Handler, Json, Input}

pub data Segment : Type 0 where
  lit : Text → Segment
  wild_group wild_job : Segment

pub data Endpoint : Type 0 where
  version ui healthz readyz status : Endpoint
  register_group get_group_list group_info remove_group : Endpoint
  add_job get_job_list delete_jobs edit_job delete_job pause_job active_job history : Endpoint

pub record Route : Type 0 where
  pub method : Text
  pub pattern : List Segment
  pub endpoint : Endpoint

abbrev route : Text → List Segment → Endpoint → Route
route m p e = record { method = m; pattern = p; endpoint = e }

abbrev groups : List Segment → List Segment
groups rest = lit (codes "v1") ∷ lit (codes "groups") ∷ rest

abbrev jobs : List Segment → List Segment
jobs rest = groups (wild_group ∷ lit (codes "jobs") ∷ rest)

abbrev get : Text
get = codes "GET"

abbrev post : Text
post = codes "POST"

abbrev delete : Text
delete = codes "DELETE"

pub routes : List Route
routes =
    route get (lit (codes "version") ∷ []) version
    ∷ route get (lit (codes "ui") ∷ []) ui
    ∷ route get (lit (codes "healthz") ∷ []) healthz
    ∷ route get (lit (codes "readyz") ∷ []) readyz
    ∷ route get (lit (codes "v1") ∷ lit (codes "status") ∷ []) status
    ∷ route post (groups []) register_group
    ∷ route get (groups []) get_group_list
    ∷ route get (groups (wild_group ∷ [])) group_info
    ∷ route delete (groups (wild_group ∷ [])) remove_group
    ∷ route post (jobs []) add_job
    ∷ route get (jobs []) get_job_list
    ∷ route delete (jobs []) delete_jobs
    ∷ route (codes "PATCH") (jobs (wild_job ∷ [])) edit_job
    ∷ route delete (jobs (wild_job ∷ [])) delete_job
    ∷ route post (jobs (wild_job ∷ lit (codes "pause") ∷ [])) pause_job
    ∷ route post (jobs (wild_job ∷ lit (codes "activate") ∷ [])) active_job
    ∷ route get (groups (wild_group ∷ lit (codes "history") ∷ [])) history
    ∷ []

-- The path values of the wildcards, with their names.
pub record Values : Type 0 where
  pub group : Text
  pub job : Text

abbrev put_group : Text → Option Values → Option Values
put_group g none = none
put_group g (some v) = some (record v { group = g })

abbrev put_job : Text → Option Values → Option Values
put_job j none = none
put_job j (some v) = some (record v { job = j })

pub match_path : List Segment → List Text → Option Values
match_path [] [] = some (record { group = []; job = [] })
match_path [] (s ∷ path) = none
match_path (p ∷ ps) [] = none
match_path (lit t ∷ ps) (s ∷ path) = let rest = match_path ps path in if t =t s then rest else none
match_path (wild_group ∷ ps) (s ∷ path) = put_group s (match_path ps path)
match_path (wild_job ∷ ps) (s ∷ path) = put_job s (match_path ps path)

pub allows : Text → Text → Bool
allows route_method method =
    route_method =t method || (route_method =t get && method =t codes "HEAD")

-- What the routes say of a request: an endpoint, a method that is not allowed, or no such path.
pub data Routed : Type 0 where
  to : Endpoint → Values → Routed
  not_allowed unknown : Routed

abbrev pub or_else : Bool → Endpoint → Option Values → Routed → Routed
or_else allowed e none later = later
or_else true e (some v) later = to e v
or_else false e (some v) unknown = not_allowed
or_else false e (some v) not_allowed = not_allowed
or_else false e (some v) (to e' v') = to e' v'

pub dispatch : List Route → Text → List Text → Routed
dispatch [] method path = unknown
dispatch (r ∷ rs) method path =
    or_else (allows r.method method) r.endpoint (match_path r.pattern path)
      (dispatch rs method path)

pub record HttpRequest : Type 0 where
  pub method : Text
  pub path : List Text
  pub limit : Text
  pub name : Text
  pub body : Body

-- What the server runs with: its version and page, what the database answers to a ping, the clock, the
-- generated id, and the parameters of the queue and of encoding/json.
pub record Setup : Type 0 where
  pub server_version : Text
  pub ui_html : Text
  pub pings : Bool
  pub now : ℤ
  pub uid : Text
  pub collation : Text → Text → Bool
  pub json : Json

abbrev answer_plain : ℕ → Text → Response
answer_plain code t = record { status = code; body = plain t }

pub readyz_response : Bool → Response
readyz_response pings =
    if pings then answer_plain 200 (codes "ready") else answer_plain 503 (codes "not ready")

module _ (insert : Insert) (parse_duration : Text → Option ℤ) (c : Setup) where
  pub run : Endpoint → Input → Handler
  run version i w = Handlers.version c.server_version w
  run ui i w = (answer_plain 200 c.ui_html, w)
  run healthz i w = (answer_plain 200 (codes "ok"), w)
  run readyz i w = (readyz_response c.pings, w)
  run status i w = Handlers.status c.now w
  run register_group i w = Handlers.register_group c.json i w
  run get_group_list i w = Handlers.get_group_list c.collation w
  run group_info i w = Handlers.group_info i w
  run remove_group i w = Handlers.remove_group i w
  run add_job i w = Handlers.add_job insert c.json c.now parse_duration c.uid i w
  run get_job_list i w = Handlers.get_job_list i w
  run delete_jobs i w = Handlers.delete_jobs i w
  run edit_job i w = Handlers.edit_job c.json i w
  run delete_job i w = Handlers.delete_job i w
  run pause_job i w = Handlers.pause_job i w
  run active_job i w = Handlers.active_job insert c.json c.now i w
  run history i w = Handlers.history i w

  abbrev pub input : HttpRequest → Values → Input
  input r v = record { group = v.group; job = v.job; limit = r.limit; name = r.name; body = r.body }

  abbrev pub serve_routed : HttpRequest → Routed → Handler
  serve_routed r (to e v) w = run e (input r v) w
  serve_routed r not_allowed w = (answer_plain 405 (codes "Method Not Allowed"), w)
  serve_routed r unknown w = (answer_plain 404 (codes "404 page not found"), w)

  pub serve : HttpRequest → Handler
  serve r w = serve_routed r (dispatch routes r.method r.path) w

-- Opens the code of the router and its handlers, for a run on concrete tables.
unfoldable pub http_code : Unit {0}
unfolding routes match_path allows dispatch readyz_response run serve write_json write_err read_json
    admin_code Handlers.edit_job Handlers.delete_job Handlers.pause_job Handlers.get_job_list
http_code = tt
