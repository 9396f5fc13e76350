-- ===== src/Http/Router/Reached.antt =====
-- The endpoints of the API as docs/apiv1.md lists them, and those of cmd.go's buildRouter besides: the method
-- and the path of each.
use gua.Base.{
  ◌≡◌, ◌≢◌, refl, Bool, true, false, ◌&&◌, Option, none, some, List, [], ◌∷◌, Text, codes, ◌=t◌,
  count,
}
use gua.Http.Router.{
  Endpoint, version, ui, healthz, readyz, status, register_group, get_group_list, group_info,
  remove_group, add_job, get_job_list, delete_jobs, edit_job, delete_job, pause_job, active_job,
  history, Route, Values, to, match_path, allows, dispatch, routes,
}

abbrev pub method_of : Endpoint → Text
method_of version = codes "GET"
method_of ui = codes "GET"
method_of healthz = codes "GET"
method_of readyz = codes "GET"
method_of status = codes "GET"
method_of register_group = codes "POST"
method_of get_group_list = codes "GET"
method_of group_info = codes "GET"
method_of remove_group = codes "DELETE"
method_of add_job = codes "POST"
method_of get_job_list = codes "GET"
method_of delete_jobs = codes "DELETE"
method_of edit_job = codes "PATCH"
method_of delete_job = codes "DELETE"
method_of pause_job = codes "POST"
method_of active_job = codes "POST"
method_of history = codes "GET"

-- The path, for a group and a job, and the names that the handler gets.
abbrev under_groups : List Text → List Text
under_groups rest = codes "v1" ∷ codes "groups" ∷ rest

abbrev pub path_of : Endpoint → Text → Text → List Text
path_of version g j = codes "version" ∷ []
path_of ui g j = codes "ui" ∷ []
path_of healthz g j = codes "healthz" ∷ []
path_of readyz g j = codes "readyz" ∷ []
path_of status g j = codes "v1" ∷ codes "status" ∷ []
path_of register_group g j = under_groups []
path_of get_group_list g j = under_groups []
path_of group_info g j = under_groups (g ∷ [])
path_of remove_group g j = under_groups (g ∷ [])
path_of add_job g j = under_groups (g ∷ codes "jobs" ∷ [])
path_of get_job_list g j = under_groups (g ∷ codes "jobs" ∷ [])
path_of delete_jobs g j = under_groups (g ∷ codes "jobs" ∷ [])
path_of edit_job g j = under_groups (g ∷ codes "jobs" ∷ j ∷ [])
path_of delete_job g j = under_groups (g ∷ codes "jobs" ∷ j ∷ [])
path_of pause_job g j = under_groups (g ∷ codes "jobs" ∷ j ∷ codes "pause" ∷ [])
path_of active_job g j = under_groups (g ∷ codes "jobs" ∷ j ∷ codes "activate" ∷ [])
path_of history g j = under_groups (g ∷ codes "history" ∷ [])

abbrev neither : Values
neither = record { group = []; job = [] }

abbrev pub values_of : Endpoint → Text → Text → Values
values_of version g j = neither
values_of ui g j = neither
values_of healthz g j = neither
values_of readyz g j = neither
values_of status g j = neither
values_of register_group g j = neither
values_of get_group_list g j = neither
values_of group_info g j = record { group = g; job = [] }
values_of remove_group g j = record { group = g; job = [] }
values_of add_job g j = record { group = g; job = [] }
values_of get_job_list g j = record { group = g; job = [] }
values_of delete_jobs g j = record { group = g; job = [] }
values_of edit_job g j = record { group = g; job = j }
values_of delete_job g j = record { group = g; job = j }
values_of pause_job g j = record { group = g; job = j }
values_of active_job g j = record { group = g; job = j }
values_of history g j = record { group = g; job = [] }

-- A name that net/http keeps as it is in a path: it redirects to a path without empty segments, `.` and `..`.
abbrev pub IsSegment : Text → Type 0
IsSegment t = (t ≢ []) × (t ≢ codes ".") × (t ≢ codes "..")

abbrev is_some : Option Values → Bool
is_some none = false
is_some (some v) = true

abbrev pub takes : Text → List Text → Route → Bool
takes method path r = allows r.method method && is_some (match_path r.pattern path)

-- For each endpoint, and for names of a group and a job that are neither empty nor `.` nor `..`: a request by
-- the endpoint's method to its path reaches its handler, which gets the names of the group and the job
-- that the path has. Exactly one route takes that request, so it does not matter in which order the routes
-- are tried.
pub dispatch-routes :
    (e : Endpoint) (g j : Text)
    → IsSegment g
    → IsSegment j
    → (dispatch routes (method_of e) (path_of e g j) ≡ to e (values_of e g j))
      × (count (takes (method_of e) (path_of e g j)) routes ≡ 1)
unfolding dispatch routes match_path allows ◌=t◌
dispatch-routes version g j _ _ = (refl, refl)
dispatch-routes ui g j _ _ = (refl, refl)
dispatch-routes healthz g j _ _ = (refl, refl)
dispatch-routes readyz g j _ _ = (refl, refl)
dispatch-routes status g j _ _ = (refl, refl)
dispatch-routes register_group g j _ _ = (refl, refl)
dispatch-routes get_group_list g j _ _ = (refl, refl)
dispatch-routes group_info g j _ _ = (refl, refl)
dispatch-routes remove_group g j _ _ = (refl, refl)
dispatch-routes add_job g j _ _ = (refl, refl)
dispatch-routes get_job_list g j _ _ = (refl, refl)
dispatch-routes delete_jobs g j _ _ = (refl, refl)
dispatch-routes edit_job g j _ _ = (refl, refl)
dispatch-routes delete_job g j _ _ = (refl, refl)
dispatch-routes pause_job g j _ _ = (refl, refl)
dispatch-routes active_job g j _ _ = (refl, refl)
dispatch-routes history g j _ _ = (refl, refl)
