-- ===== src/Grpc/Examples.antt =====
-- The theorems on the gRPC API, at a group with one job.
use gua.Base.{◌≡◌, ◌++◌, refl, true, false, none, [], codes, ok, Text}
use gua.Base.Int.{pos}
use gua.Queue.Types.{split_request_url, http, types_code}
use gua.Queue.Requests
use gua.Queue.Sample.{river_insert, no_duration, world}
use gua.Http.Handlers.{Input}
use gua.Http.Types.{broken}
use gua.Http.Router
use gua.Http.Router.{Setup, run}
use gua.Grpc.{delivery_http, delivery_grpc, build_request_url, parse_request_url}
use gua.Grpc.Urls.{kind_of, build-parse}
use gua.Grpc.Mirror.{AdminCall, pause_job, edit_job, run_call, status_of_code, run-run_call}

abbrev site : Text
site = codes "http://x"

build_site : build_request_url delivery_http site ≡ ok (codes "HTTP@" ++ site)
unfolding build_request_url
build_site = refl

split_site : split_request_url (codes "HTTP@" ++ site) ≡ ok (http, site)
unfolding types_code
split_site = refl

build-parse_example :
    let (d, t) = parse_request_url (codes "HTTP@" ++ site) in
    (build_request_url d t ≡ ok (codes "HTTP@" ++ site)) × (kind_of d ≡ http) × (t ≡ site)
build-parse_example = build-parse (codes "HTTP@" ++ site) split_site

abbrev setup : Setup
setup = record {
  server_version = codes "1.0";
  ui_html = [];
  pings = true;
  now = pos 5;
  uid = codes "u1";
  collation = λ a b. false;
  json = record {
    edit_payload = λ b. none;
    add_payload = λ b. none;
    group_payload = λ b. none;
    active_payload = λ b. none;
  };
}

abbrev edit_a1 : AdminCall
edit_a1 = edit_job (record {
  group_name = codes "billing";
  job_id = codes "a1";
  delivery = delivery_grpc;
  target = codes "y:9";
  payload = [];
})

abbrev pause_a1 : Input
pause_a1 = record {
  group = codes "billing";
  job = codes "a1";
  limit = [];
  name = [];
  body = broken;
}

run-run_call_example :
    let x = run river_insert no_duration setup Router.pause_job pause_a1 world in
    let y =
      run_call river_insert no_duration setup (pause_job (codes "billing") (codes "a1")) world in
    (x.1 ≡ y.1) × (x.0.status ≡ status_of_code river_insert no_duration setup y.0)
run-run_call_example =
    run-run_call river_insert no_duration setup Router.pause_job pause_a1
      (pause_job (codes "billing") (codes "a1")) (Requests.pause_job (codes "billing") (codes "a1"))
      world refl refl
