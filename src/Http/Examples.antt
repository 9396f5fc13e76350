-- ===== src/Http/Examples.antt =====
-- The theorems on the HTTP API, at a group with one job.
use gua.Base.{count, ◌≡◌, ◌≢◌, refl, inl, true, false, none, some, [], ◌∷◌, codes, arith}
use gua.Base.Int.{pos}
use gua.Queue.Invariant.{IsConsistent}
use gua.Queue.Sample.{
  river_insert, river_insert-IsInsert, no_duration, store, world, store-IsConsistent,
}
use gua.Http.Types.{broken, bytes}
use gua.Http.Handlers.{Input}
use gua.Http.Router.{
  active_job, dispatch, routes, to, edit_job, HttpRequest, Setup, run, serve, http_code,
}
use gua.Http.Router.Reached.{IsSegment, method_of, path_of, takes, dispatch-routes}
use gua.Http.Router.Safety.{Served, mutates, request_of, run-Served}
use gua.Http.Router.Serve.{serve-unchanged, serve-IsConsistent, get-unchanged}

abbrev setup : Setup
setup = record {
  server_version = codes "1.0";
  ui_html = [];
  pings = true;
  now = pos 5;
  uid = codes "u1";
  collation = λ a b. false;
  json = record {
    edit_payload = λ b. some (record { request_url = codes "HTTP@http://y"; payload = [] });
    add_payload = λ b. none;
    group_payload = λ b. none;
    active_payload = λ b. none;
  };
}

abbrev edit_a1 : Input
edit_a1 = record {
  group = codes "billing";
  job = codes "a1";
  limit = [];
  name = [];
  body = bytes (123 ∷ 125 ∷ []);
}

run-Served_example :
    Served river_insert no_duration setup
      (mutates edit_job)
      (request_of river_insert no_duration setup edit_job edit_a1)
      world
      (run river_insert no_duration setup edit_job edit_a1 world)
run-Served_example = run-Served river_insert no_duration setup edit_job edit_a1 world

edit_a1-200 : (run river_insert no_duration setup edit_job edit_a1 world).0.status ≡ 200
unfolding http_code
edit_a1-200 = refl

abbrev delete_b2 : HttpRequest
delete_b2 = record {
  method = codes "DELETE";
  path = codes "v1" ∷ codes "groups" ∷ codes "billing" ∷ codes "jobs" ∷ codes "b2" ∷ [];
  limit = [];
  name = [];
  body = broken;
}

delete_b2-404 : (serve river_insert no_duration setup delete_b2 world).0.status ≡ 404
unfolding http_code
delete_b2-404 = refl

delete_b2-not_200 : (serve river_insert no_duration setup delete_b2 world).0.status ≢ 200
delete_b2-not_200 h = absurd (omega (arith, delete_b2-404, h))

serve-unchanged_example : (serve river_insert no_duration setup delete_b2 world).1.store ≡ store
serve-unchanged_example =
    serve-unchanged river_insert no_duration setup delete_b2 world delete_b2-not_200

abbrev pause_a1 : HttpRequest
pause_a1 = record {
  method = codes "POST";
  path =
      codes "v1"
      ∷ codes "groups"
      ∷ codes "billing"
      ∷ codes "jobs"
      ∷ codes "a1"
      ∷ codes "pause"
      ∷ [];
  limit = [];
  name = [];
  body = broken;
}

pause_a1-200 : (serve river_insert no_duration setup pause_a1 world).0.status ≡ 200
unfolding http_code
pause_a1-200 = refl

serve-IsConsistent_example :
    let s = (serve river_insert no_duration setup pause_a1 world).1.store in
    IsConsistent s.jobs s.river
serve-IsConsistent_example =
    serve-IsConsistent river_insert no_duration setup river_insert-IsInsert pause_a1 world
      store-IsConsistent

abbrev list_billing : HttpRequest
list_billing = record {
  method = codes "GET";
  path = codes "v1" ∷ codes "groups" ∷ codes "billing" ∷ codes "jobs" ∷ [];
  limit = [];
  name = [];
  body = broken;
}

get-unchanged_example : (serve river_insert no_duration setup list_billing world).1.store ≡ store
get-unchanged_example = get-unchanged river_insert no_duration setup list_billing world (inl refl)

billing-IsSegment : IsSegment (codes "billing")
billing-IsSegment = (λ h. cc, λ h. cc, λ h. cc)

pause-IsSegment : IsSegment (codes "pause")
pause-IsSegment = (λ h. cc, λ h. cc, λ h. cc)

-- A job that is called like a path.
dispatch-routes_example :
    (dispatch routes (codes "POST") (
        codes "v1"
        ∷ codes "groups"
        ∷ codes "billing"
        ∷ codes "jobs"
        ∷ codes "pause"
        ∷ codes "activate"
        ∷ [])
      ≡ to active_job (record { group = codes "billing"; job = codes "pause" }))
    × (count
          (takes (method_of active_job) (path_of active_job (codes "billing") (codes "pause")))
          routes
        ≡ 1)
dispatch-routes_example =
    dispatch-routes active_job (codes "billing") (codes "pause") billing-IsSegment pause-IsSegment
