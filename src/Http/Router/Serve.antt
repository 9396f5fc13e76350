-- ===== src/Http/Router/Serve.antt =====
-- The router of cmd.go with its handlers, and the tables under its calls.
use gua.Base.{
  ◌≡◌, ◌≢◌, ◌∙◌, ◌⊎◌, refl, sym, ap, inl, inr, subst, Bool, true, false, ◌&&◌, Option, none, some,
  List, [], ◌∷◌, Text, codes, ◌=t◌, All, arith,
}
use gua.Base.Int.{ℤ}
use gua.Queue.Store.{Insert, IsInsert}
use gua.Queue.Monad.{ok_or_err, World}
use gua.Queue.Invariant.{IsConsistent}
use gua.Queue.Requests.{Request, handle, handle-err_unchanged, handle-IsConsistent}
use gua.Http.Types.{Response}
use gua.Http.Handlers.{Input}
use gua.Http.Router.{
  Endpoint, version, ui, healthz, readyz, status, get_group_list, group_info, get_job_list, history,
  register_group, remove_group, add_job, delete_jobs, edit_job, delete_job, pause_job, active_job,
  Route, Values, Routed, to, not_allowed, unknown, or_else, allows, match_path, routes, dispatch,
  HttpRequest, Setup, input, run, serve_routed, serve,
}
use gua.Http.Router.Safety.{status_of, mutates, request_of, Served, run-Served}

or_else-to :
    (allowed : Bool) (e : Endpoint) (m : Option Values) (later : Routed) {e' : Endpoint}
    {v : Values}
    → or_else allowed e m later ≡ to e' v
    → ((allowed ≡ true) × (e ≡ e')) ⊎ (later ≡ to e' v)
or_else-to allowed e none later h = inr h
or_else-to true e (some u) later h = inl (refl, ground arith)
or_else-to false e (some u) unknown h = absurd (ground arith)
or_else-to false e (some u) not_allowed h = absurd (ground arith)
or_else-to false e (some u) (to f x) h = inr h

-- A route that is taken allows the method.
dispatch-mutates :
    (rs : List Route) (method : Text) (path : List Text) {e : Endpoint} {v : Values}
    → All (λ r. (allows r.method method && mutates r.endpoint) ≡ false) rs
    → dispatch rs method path ≡ to e v
    → mutates e ≡ false
unfolding dispatch
dispatch-mutates [] method path all h = absurd (ground arith)
dispatch-mutates (r ∷ rs) method path (here, all) h =
    elim (or_else-to (allows r.method method) r.endpoint (match_path r.pattern path)
      (dispatch rs method path) h) [
        | inl (allowed, same) ↦ subst (λ e. mutates e ≡ false) same (ground (arith, here, allowed))
        | inr later ↦ dispatch-mutates rs method path all later
      ]

get_routes : All (λ r. (allows r.method (codes "GET") && mutates r.endpoint) ≡ false) routes
unfolding routes allows ◌=t◌
get_routes = ground arith

head_routes : All (λ r. (allows r.method (codes "HEAD") && mutates r.endpoint) ≡ false) routes
unfolding routes allows ◌=t◌
head_routes = ground arith

module _ (insert : Insert) (parse_duration : Text → Option ℤ) (c : Setup) where
  Served-unchanged :
      (changes : Bool) (o : Option Request) (w : World) (x : Response × World)
      → Served insert parse_duration c changes o w x
      → x.0.status ≢ 200
      → x.1.store ≡ w.store
  Served-unchanged changes none w x (same, _) h = same
  Served-unchanged changes (some q) w x (same, answered) h =
      elim (ok_or_err (handle insert parse_duration c.now q w).0) [
        | inl done ↦ absurd (h (answered ∙ ap status_of done))
        | inr (e, failed) ↦
            ap (λ v. v.store) same ∙ handle-err_unchanged insert parse_duration c.now q w failed
      ]

  -- A call that is not answered by 200 leaves the tables as they were, wherever the database failed.
  pub serve-unchanged :
      (r : HttpRequest) (w : World)
      → (serve insert parse_duration c r w).0.status ≢ 200
      → (serve insert parse_duration c r w).1.store ≡ w.store
  unfolding serve
  serve-unchanged r w = by_route (dispatch routes r.method r.path)
    where
      by_route :
          (d : Routed)
          → (serve_routed insert parse_duration c r d w).0.status ≢ 200
          → (serve_routed insert parse_duration c r d w).1.store ≡ w.store
      by_route not_allowed h = refl
      by_route unknown h = refl
      by_route (to e v) h =
          Served-unchanged (mutates e)
            (request_of insert parse_duration c e (input insert parse_duration c r v)) w _
            (run-Served insert parse_duration c e (input insert parse_duration c r v) w) h

  Served-IsConsistent :
      (law : IsInsert insert) (changes : Bool) (o : Option Request) (w : World)
      (x : Response × World)
      → Served insert parse_duration c changes o w x
      → IsConsistent w.store.jobs w.store.river
      → IsConsistent x.1.store.jobs x.1.store.river
  Served-IsConsistent law changes none w x (same, _) k =
      subst (λ s. IsConsistent s.jobs s.river) (sym same) k
  Served-IsConsistent law changes (some q) w x (same, _) k =
      subst (λ v. IsConsistent v.store.jobs v.store.river) (sym same)
        (handle-IsConsistent insert parse_duration c.now law q w k)

  -- If River inserts as it documents, every call over HTTP, whatever its method, path and body and
  -- wherever the database fails, preserves the invariant of the tables.
  pub serve-IsConsistent :
      (law : IsInsert insert) (r : HttpRequest) (w : World)
      → IsConsistent w.store.jobs w.store.river
      → let s = (serve insert parse_duration c r w).1.store in IsConsistent s.jobs s.river
  unfolding serve
  serve-IsConsistent law r w k = by_route (dispatch routes r.method r.path)
    where
      by_route :
          (d : Routed)
          → let s = (serve_routed insert parse_duration c r d w).1.store in
            IsConsistent s.jobs s.river
      by_route not_allowed = k
      by_route unknown = k
      by_route (to e v) =
          let i = input insert parse_duration c r v in
          Served-IsConsistent law (mutates e) (request_of insert parse_duration c e i) w
            (run insert parse_duration c e i w) (run-Served insert parse_duration c e i w) k

  no_request :
      (e : Endpoint) (i : Input) → mutates e ≡ false → request_of insert parse_duration c e i ≡ none
  no_request version i h = refl
  no_request ui i h = refl
  no_request healthz i h = refl
  no_request readyz i h = refl
  no_request status i h = refl
  no_request get_group_list i h = refl
  no_request group_info i h = refl
  no_request get_job_list i h = refl
  no_request history i h = refl
  no_request register_group i h = cc
  no_request remove_group i h = cc
  no_request add_job i h = cc
  no_request delete_jobs i h = cc
  no_request edit_job i h = cc
  no_request delete_job i h = cc
  no_request pause_job i h = cc
  no_request active_job i h = cc

  -- A call by GET or HEAD leaves the tables as they were.
  pub get-unchanged :
      (r : HttpRequest) (w : World)
      → (r.method ≡ codes "GET") ⊎ (r.method ≡ codes "HEAD")
      → (serve insert parse_duration c r w).1.store ≡ w.store
  unfolding serve
  get-unchanged r w by = by_route (dispatch routes r.method r.path) refl
    where
      reads :
          (e : Endpoint) (v : Values) → dispatch routes r.method r.path ≡ to e v → mutates e ≡ false
      reads e v h = elim by [
        | inl get ↦
            dispatch-mutates routes (codes "GET") r.path get_routes
              (subst (λ m. dispatch routes m r.path ≡ to e v) get h)
        | inr head ↦
            dispatch-mutates routes (codes "HEAD") r.path head_routes
              (subst (λ m. dispatch routes m r.path ≡ to e v) head h)
      ]

      by_route :
          (d : Routed)
          → dispatch routes r.method r.path ≡ d
          → (serve_routed insert parse_duration c r d w).1.store ≡ w.store
      by_route not_allowed h = refl
      by_route unknown h = refl
      by_route (to e v) h =
          let i = input insert parse_duration c r v in
          (subst
            (λ o.
              Served insert parse_duration c (mutates e) o w (run insert parse_duration c e i w))
            (no_request e i (reads e v h)) (run-Served insert parse_duration c e i w)).0
